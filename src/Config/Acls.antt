-- ===== src/Config/Acls.antt =====
-- getStrForNetwork of ovs/ovs_config.go: `network:value/...`, the form of the ACL and mirror options.
use dovesnap.Prelude.{
  String, Char, List, Option, none, some, ◌≡◌, refl, ap, ◌∙◌, arith, All, str_eq, if◌then◌else◌,
}
use dovesnap.Prelude.Text.{split, join, Lacks}
use dovesnap.Prelude.Text.Split.{split-join, Lacks-join}
use dovesnap.Config.{str_for_network, strs_for_network, get_str_for_network}

-- One entry: a value for every network, or for one.
pub data Entry : Type 0 where
  for_all : String → Entry
  for_one : (network value : String) → Entry

parts : Entry → List String
parts (for_all value) = List.◌∷◌ value List.[]
parts (for_one network value) = List.◌∷◌ network (List.◌∷◌ value List.[])

unfoldable pub entry_text : Entry → String
unfolding parts join
entry_text e = join ":" (parts e)

pub entry_texts : List Entry → List String
entry_texts List.[] = List.[]
entry_texts (List.◌∷◌ e es) = List.◌∷◌ (entry_text e) (entry_texts es)

unfoldable pub option_text : List Entry → String
option_text es = join "/" (entry_texts es)

-- The value that an entry gives to a network.
unfoldable pub value_for : String → Entry → Option String
value_for network (for_all value) = some value
value_for network (for_one name value) = if str_eq network name then some value else none

abbrev or_else : Option String → Option String → Option String
or_else (some v) o = some v
or_else none o = o

-- The last entry that applies decides.
unfoldable pub last_value_for : String → List Entry → Option String
unfolding value_for
last_value_for network List.[] = none
last_value_for network (List.◌∷◌ e es) = or_else (last_value_for network es) (value_for network e)

abbrev pub text_or : String → Option String → String
text_or default none = default
text_or default (some v) = v

abbrev HasNone : Char → Entry → Type 0
HasNone sep (for_all value) = Lacks sep value
HasNone sep (for_one network value) = Lacks sep network × Lacks sep value

-- No separator inside a network name or a value.
pub record IsPlain (e : Entry) : Type 0 where
  pub slash : HasNone "/" e
  pub colon : HasNone ":" e

split-entry_text : (e : Entry) → HasNone ":" e → split ":" (entry_text e) ≡ parts e
unfolding entry_text parts
split-entry_text (for_all value) h = split-join ":" value List.[] h tt
split-entry_text (for_one network value) (h, k) =
    split-join ":" network (List.◌∷◌ value List.[]) h (k, tt)

Lacks-entry_text : (e : Entry) → HasNone "/" e → Lacks "/" (entry_text e)
unfolding entry_text parts
Lacks-entry_text (for_all value) h = Lacks-join "/" ":" (List.◌∷◌ value List.[]) (refl, tt) (h, tt)
Lacks-entry_text (for_one network value) (h, k) =
    Lacks-join "/" ":" (List.◌∷◌ network (List.◌∷◌ value List.[])) (refl, tt) (h, (k, tt))

Lacks-entry_texts : (es : List Entry) → All IsPlain es → All (Lacks "/") (entry_texts es)
unfolding entry_texts
Lacks-entry_texts List.[] h = tt
Lacks-entry_texts (List.◌∷◌ e es) (h, hs) = (Lacks-entry_text e h.slash, Lacks-entry_texts es hs)

str_for_network-parts :
    (network found : String) (e : Entry)
    → str_for_network network (parts e) found ≡ text_or found (value_for network e)
unfolding str_for_network parts value_for
str_for_network-parts network found (for_all value) = refl
str_for_network-parts network found (for_one name value) = ground arith

str_for_network-entry_text :
    (network found : String) (e : Entry)
    → IsPlain e
    → str_for_network network (split ":" (entry_text e)) found ≡ text_or found (value_for network e)
str_for_network-entry_text network found e h =
    ap (λ p. str_for_network network p found) (split-entry_text e h.colon)
    ∙ str_for_network-parts network found e

text_or-or_else :
    (found : String) (o p : Option String)
    → text_or (text_or found p) o ≡ text_or found (or_else o p)
text_or-or_else found none p = refl
text_or-or_else found (some v) p = refl

strs_for_network-entries :
    (network : String) (es : List Entry) (found : String)
    → All IsPlain es
    → strs_for_network network (entry_texts es) found ≡ text_or found (last_value_for network es)
unfolding strs_for_network entry_texts last_value_for
strs_for_network-entries network List.[] found h = refl
strs_for_network-entries network (List.◌∷◌ e es) found (h, hs) =
    ap (strs_for_network network (entry_texts es)) (str_for_network-entry_text network found e h)
    ∙ (strs_for_network-entries network es (text_or found (value_for network e)) hs
        ∙ text_or-or_else found (last_value_for network es) (value_for network e))

-- For an option of one or more entries, without "/" and ":" inside names and values, the string of a
-- network is the value of the last entry that is for all networks or for this one, and "" if
-- there is no such entry.
pub get_str_for_network_lem :
    (e : Entry) (es : List Entry) (network : String)
    → All IsPlain (List.◌∷◌ e es)
    → get_str_for_network (option_text (List.◌∷◌ e es)) network
      ≡ text_or "" (last_value_for network (List.◌∷◌ e es))
unfolding get_str_for_network option_text entry_texts
get_str_for_network_lem e es network h =
    ap (λ ss. strs_for_network network ss "")
      (split-join "/" (entry_text e) (entry_texts es) (Lacks-entry_text e h.0.slash)
        (Lacks-entry_texts es h.1))
    ∙ strs_for_network-entries network (List.◌∷◌ e es) "" h
