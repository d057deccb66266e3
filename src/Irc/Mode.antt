-- ===== src/Irc/Mode.antt =====
-- pkg/irc/internal.go: `Mode`, `ParseMode` and `isChannel`.
use dispatch.Base.{
  ℕ, Bytes, Bool, true, false, none, some, List, [], ◌∷◌, ◌++◌, codes, ◌==◌, nat_eq, bytes_eq,
  if◌then◌else◌, chars, index_any, chars_from, bytes_beq, contains, All, IsAscii, singletons, ◌≡◌,
  ◌≢◌, ◌<◌, chars_ascii, arith, All-append, refl, ap, ◌∙◌, append-nil, append_assoc,
}

pub record Mode : Type 0 where
  pub network : Bytes
  pub channel : Bytes
  pub user : Bytes
  pub add : Bytes
  pub remove : Bytes

-- The loop over the characters; the flag is `add`.
parse_mode_from : Bool → Mode → List Bytes → Mode
parse_mode_from add m [] = m
parse_mode_from add m (c ∷ cs) =
    parse_mode_from (if c == codes "+" then true else if c == codes "-" then false else add)
      (if c == codes "+"
        then m
        else if c == codes "-"
        then m
        else if add
        then record m { add = m.add ++ c }
        else record m { remove = m.remove ++ c })
      cs

abbrev pub no_mode : Mode
no_mode = record { network = []; channel = []; user = []; add = []; remove = [] }

unfoldable pub parse_mode : Bytes → Mode
unfolding parse_mode_from chars_from bytes_beq
parse_mode mode = parse_mode_from false no_mode (chars mode)

-- `strings.IndexAny(s, "&#+!") == 0`
unfoldable pub is_channel : Bytes → Bool
unfolding index_any contains
is_channel s = elim (index_any s (codes "&#+!")) [ none ↦ false | some i ↦ i == 0 ]

-- A change of modes in groups, such as "+ov-h": a sign and letters for each group.
abbrev pub Groups : Type 0
Groups = List (Bool × Bytes)

abbrev pub IsLetters : Bytes → Type 0
IsLetters = All (λ c. (c < 128) × (c ≢ b'+') × (c ≢ b'-'))

abbrev pub AreLetters : Groups → Type 0
AreLetters = All (λ g. IsLetters g.1)

abbrev pub iff : Bool → Bool → Bool
iff true b = b
iff false true = false
iff false false = true

abbrev pub sign_text : Bool → ℕ
sign_text sign = if sign then b'+' else b'-'

abbrev pub groups_text : Groups → Bytes
groups_text [] = []
groups_text ((sign, letters) ∷ gs) = sign_text sign ∷ (letters ++ groups_text gs)

-- The letters of the groups of one sign.
abbrev pub letters_of : Bool → Groups → Bytes
letters_of which [] = []
letters_of which ((sign, letters) ∷ gs) =
    (if iff sign which then letters else []) ++ letters_of which gs

abbrev with_letters : Mode → Bytes → Bytes → Mode
with_letters m a r = record m { add = m.add ++ a; remove = m.remove ++ r }

letters-IsAscii : (l : Bytes) → IsLetters l → IsAscii l
letters-IsAscii [] h = tt
letters-IsAscii (c ∷ l) h = (h.0.0, letters-IsAscii l h.1)

groups_text-IsAscii : (gs : Groups) → AreLetters gs → IsAscii (groups_text gs)
groups_text-IsAscii [] h = tt
groups_text-IsAscii ((true, l) ∷ gs) h =
    (omega arith, All-append _ l _ (letters-IsAscii l h.0) (groups_text-IsAscii gs h.1))
groups_text-IsAscii ((false, l) ∷ gs) h =
    (omega arith, All-append _ l _ (letters-IsAscii l h.0) (groups_text-IsAscii gs h.1))

singletons-append : (a b : Bytes) → singletons (a ++ b) ≡ singletons a ++ singletons b
singletons-append [] b = refl
singletons-append (c ∷ a) b = ap (◌∷◌ (c ∷ [])) (singletons-append a b)

-- The loop over letters of one sign collects them.
parse_letters :
    (l : Bytes) (sign : Bool) (m : Mode) (rest : List Bytes)
    → IsLetters l
    → parse_mode_from sign m (singletons l ++ rest)
      ≡ parse_mode_from sign (with_letters m (if sign then l else []) (if sign then [] else l)) rest
unfolding parse_mode_from bytes_beq
parse_letters [] true m rest h = rw append-nil (rw append-nil)
parse_letters [] false m rest h = rw append-nil (rw append-nil)
parse_letters (c ∷ l) true m rest h = ground (
  arith,
  append-nil m.remove,
  append_assoc m.add (c ∷ []) l,
  parse_letters l true (record m { add = m.add ++ c ∷ [] }) rest h.1,
)
parse_letters (c ∷ l) false m rest h = ground (
  arith,
  append-nil m.add,
  append_assoc m.remove (c ∷ []) l,
  parse_letters l false (record m { remove = m.remove ++ c ∷ [] }) rest h.1,
)

parse_sign :
    (sign old : Bool) (m : Mode) (cs : List Bytes)
    → parse_mode_from old m ((sign_text sign ∷ []) ∷ cs) ≡ parse_mode_from sign m cs
unfolding parse_mode_from bytes_beq
parse_sign true old m cs = refl
parse_sign false old m cs = refl

parse_groups :
    (gs : Groups) (old : Bool) (m : Mode)
    → AreLetters gs
    → parse_mode_from old m (singletons (groups_text gs))
      ≡ with_letters m (letters_of true gs) (letters_of false gs)
parse_groups [] old m h = unfold parse_mode_from in rw append-nil (rw append-nil)
parse_groups ((true, l) ∷ gs) old m h =
    parse_sign true old m _
    ∙ ap (parse_mode_from true m) (singletons-append l (groups_text gs))
    ∙ parse_letters l true m _ h.0
    ∙ parse_groups gs true _ h.1
    ∙ cc (append_assoc m.add l (letters_of true gs), append-nil m.remove)
parse_groups ((false, l) ∷ gs) old m h =
    parse_sign false old m _
    ∙ ap (parse_mode_from false m) (singletons-append l (groups_text gs))
    ∙ parse_letters l false m _ h.0
    ∙ parse_groups gs false _ h.1
    ∙ cc (append_assoc m.remove l (letters_of false gs), append-nil m.add)

-- A mode change that is written in groups, each a sign and ASCII letters other than the signs: the
-- letters behind a '+' are the added modes and those behind a '-' the removed ones, in order, and
-- the other fields are empty.
pub parse_mode-groups :
    (gs : Groups)
    → AreLetters gs
    → parse_mode (groups_text gs) ≡ record {
      network = [];
      channel = [];
      user = [];
      add = letters_of true gs;
      remove = letters_of false gs;
    }
unfolding parse_mode
parse_mode-groups gs h =
    ap (parse_mode_from false no_mode) (chars_ascii _ (groups_text-IsAscii gs h))
    ∙ parse_groups gs false no_mode h
