-- ===== src/Ports/Line.antt =====
-- One line of `ovs-ofctl dump-ports-desc` against `^\s*(\d+)\((\S+)\).+$` (ovs/ovs_port.go).
use Prim.Native.String.{[], ◌∷◌}
use dovesnap.Prelude.{
  String, Char, code, Bool, true, false, ◌&&◌, ◌||◌, not, Option, none, some, ◌≡◌, refl, ◌==◌,
  str_eq, if◌then◌else◌,
}
use dovesnap.Prelude.Text.{is_digit}

-- \s
unfoldable pub is_space : Char → Bool
is_space c = code c == b'\t' || code c == b'\n' || code c == 12 || code c == b'\r' || code c == b' '

unfoldable pub skip_spaces : String → String
unfolding is_space
skip_spaces [] = []
skip_spaces (c ∷ s) = if is_space c then skip_spaces s else c ∷ s

-- The longest run of characters that pass a test, and what is behind it.
unfoldable pub run : (Char → Bool) → String → String × String
run p [] = ([], [])
run p (c ∷ s) = let r = run p s in if p c then (c ∷ r.0, r.1) else ([], c ∷ s)

-- `(\S+)\).+` over a run of non-spaces: the name up to the last `)` that has a character behind it.
-- `more` says whether the line goes on behind the run.
unfoldable pub close : Bool → Bool → String → Option String
close more started [] = none
close more started (c ∷ s) = elim (close more true s) [
  | some name ↦ some (c ∷ name)
  | none ↦ if started && code c == b')' && (more || not (str_eq s "")) then some [] else none
]

unfoldable pub match_name : String → String → Option (String × String)
unfolding run close is_space
match_name digits [] = none
match_name digits (c ∷ s) =
    let r = run (λ d. not (is_space d)) s in
    if code c == b'('
    then elim (close (not (str_eq r.1 "")) false r.0) [
      | none ↦ none
      | some name ↦ some (digits, name)
    ]
    else none

unfoldable pub match_line : String → Option (String × String)
unfolding skip_spaces run match_name is_digit
match_line line =
    let r = run is_digit (skip_spaces line) in if str_eq r.0 "" then none else match_name r.0 r.1

match_line_test : match_line " 1(odsve1234): addr:36:fe:aa:10:20:4b" ≡ some ("1", "odsve1234")
unfolding match_line
match_line_test = refl

match_line_local : match_line " LOCAL(ovsbr-1): addr:36:fe:aa:10:20:4b" ≡ none
unfolding match_line
match_line_local = refl

match_line_state : match_line "     config:     PORT_DOWN" ≡ none
unfolding match_line
match_line_state = refl
