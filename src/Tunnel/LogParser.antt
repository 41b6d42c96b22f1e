-- ===== src/Tunnel/LogParser.antt =====
-- internal/tunnel/logparser.go: what a line of the process says.
use gamwich.Prelude.{
  ℕ, Bool, ◌&&◌, ◌||◌, Option, none, some, List, [], ◌∷◌, ◌++◌, leb, ◌==◌, if◌then◌else◌,
}
use gamwich.Text.{Text, codes, is_prefix, contains, is_digit}
use gamwich.Tunnel.{connected, reconnecting, ParseEvent}

abbrev is_label_byte : ℕ → Bool
is_label_byte c =
    is_digit c || ((leb b'a' c && leb c b'z') || ((leb b'A' c && leb c b'Z') || c == b'-'))

-- The longest run of label bytes, and the text after it.
abbrev label : Text → Text × Text
label [] = ([], [])
label (c ∷ cs) =
    let rest = label cs in if is_label_byte c then (c ∷ rest.0, rest.1) else ([], c ∷ cs)

abbrev domain : Text
domain = codes ".tunnel.gamwich.app"

-- A label that is not empty, with the domain behind it.
abbrev host_from : Text × Text → Option Text
host_from ([], after) = none
host_from (c ∷ cs, after) = if is_prefix domain after then some ((c ∷ cs) ++ domain) else none

abbrev after_prefix : Text → Text → Option Text
after_prefix [] s = some s
after_prefix (p ∷ ps) [] = none
after_prefix (p ∷ ps) (c ∷ cs) = if p == c then after_prefix ps cs else none

abbrev host_after : Option Text → Option Text
host_after none = none
host_after (some s) = host_from (label s)

-- `hostnamePattern` at the start of a text
abbrev host_here : Text → Option Text
host_here s = elim (host_after (after_prefix (codes "https://") s)) [
  | some host ↦ some host
  | none ↦ host_after (after_prefix (codes "http://") s)
]

-- The leftmost match of `hostnamePattern`: its group.
unfoldable pub find_hostname : Text → Option Text
find_hostname [] = none
find_hostname (c ∷ cs) = elim (host_here (c ∷ cs)) [
  | some host ↦ some host
  | none ↦ find_hostname cs
]

abbrev or_none : Option Text → Text
or_none none = []
or_none (some host) = host

abbrev connected_to : Option Text → Option ParseEvent
connected_to none = none
connected_to (some host) = some (record { state = connected; hostname = host })

unfoldable pub parse_log_line : Text → Option ParseEvent
parse_log_line line =
    if contains line (codes "Registered tunnel connection")
      || contains line (codes "registered connIndex=")
    then some (record { state = connected; hostname = or_none (find_hostname line) })
    else if contains line (codes "Unregistered tunnel connection")
    then some (record { state = reconnecting; hostname = [] })
    else if contains line (codes "failed to connect")
    then some (record { state = reconnecting; hostname = [] })
    else if contains line (codes "INF")
    then connected_to (find_hostname line)
    else none

unfoldable pub scan_logs : List Text → List ParseEvent
scan_logs [] = []
scan_logs (line ∷ lines) = elim (parse_log_line line) [
  | some ev ↦ ev ∷ scan_logs lines
  | none ↦ scan_logs lines
]
