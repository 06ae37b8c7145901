-- ===== src/Diagnostics/Search.antt =====
-- Package regexp's search, on the constructs that transport.go's patterns use: at the first position where
-- there is a match, the match that a backtracking search meets first. A text is a list of characters.
use stripelink.Prelude.{
  ℕ, zero, suc, ◌-◌, Bool, false, ◌&&◌, ◌||◌, Option, none, some, List, [], ◌∷◌, ◌++◌, eqb, leb,
  length, take, drop, map, if◌then◌else◌,
}
use stripelink.Json.{fold}

pub data Pattern : Type 0 where
  empty : Pattern
  -- a character of a class
  one : (ℕ → Bool) → Pattern
  -- at least so many of a class, and at most so many more; greedy
  some_of : (ℕ → Bool) → ℕ → ℕ → Pattern
  -- at least so many of a class; greedy
  many_of : (ℕ → Bool) → ℕ → Pattern
  seq alt : Pattern → Pattern → Pattern

abbrev pub opt : Pattern → Pattern
opt p = alt p empty

-- What is left after a run of a class, the longest run first.
unfoldable pub runs : (ℕ → Bool) → ℕ → List ℕ → List (List ℕ)
runs p least [] = if eqb least 0 then [] ∷ [] else []
runs p least (c ∷ s) =
    let longer = runs p (least - 1) s in
    (if p c then longer else []) ++ (if eqb least 0 then (c ∷ s) ∷ [] else [])

-- The runs that leave no less than so many characters.
abbrev pub leaving : ℕ → List (List ℕ) → List (List ℕ)
leaving n [] = []
leaving n (s ∷ ss) = if leb n (length s) then s ∷ leaving n ss else leaving n ss

abbrev pub each : {A B : Type 0} → (A → List B) → List A → List B
each f [] = []
each f (a ∷ as') = f a ++ each f as'

-- What matches leave of a text, in the order of the search.
unfoldable pub rests : Pattern → List ℕ → List (List ℕ)
unfolding runs
rests empty s = s ∷ []
rests (one p) [] = []
rests (one p) (c ∷ s) = if p c then s ∷ [] else []
rests (some_of p least more) s = leaving (length s - least - more) (runs p least s)
rests (many_of p least) s = runs p least s
rests (seq a b) s = each (rests b) (rests a s)
rests (alt a b) s = rests a s ++ rests b s

-- A replacement at a position, from the character before it: what is put there, and how many
-- characters it replaces.
abbrev pub Rule : Type 0
Rule = Option ℕ → List ℕ → Option (List ℕ × ℕ)

-- The text at a character: itself, or the replacement of the match that begins there; `next` goes on
-- behind so many more characters.
abbrev pub put_match : Option (List ℕ × ℕ) → ℕ → (ℕ → List ℕ) → List ℕ
put_match none c next = c ∷ next 0
put_match (some (text, n)) c next = text ++ next (n - 1)

-- Regexp.ReplaceAllString, by the characters of a match that are still to be passed over
unfoldable pub replace : Rule → Option ℕ → ℕ → List ℕ → List ℕ
replace rule before skip [] = []
replace rule before (suc skip) (c ∷ s) = replace rule (some c) skip s
replace rule before zero (c ∷ s) =
    put_match (rule before (c ∷ s)) c (λ skip. replace rule (some c) skip s)

unfoldable pub replace_all : Rule → List ℕ → List ℕ
unfolding replace
replace_all rule s = replace rule none 0 s

abbrev pub first : {A : Type 0} → List A → Option A
first [] = none
first (a ∷ as') = some a

abbrev pub whole : (List ℕ → List ℕ) → List ℕ → Option (List ℕ) → Option (List ℕ × ℕ)
whole text s none = none
whole text s (some rest) = let n = length s - length rest in some (text (take n s), n)

-- A rule that replaces each match by a text made of it.
abbrev pub by_match : Pattern → (List ℕ → List ℕ) → Rule
by_match p text before s = whole text s (first (rests p s))

abbrev pub is_word : ℕ → Bool
is_word c =
    (leb b'0' c && leb c b'9')
    || (leb b'A' c && leb c b'Z')
    || (leb b'a' c && leb c b'z')
    || eqb c b'_'

abbrev pub word_before : Option ℕ → Bool
word_before none = false
word_before (some c) = is_word c

-- \b before a pattern that begins with a word character
abbrev pub at_boundary : Rule → Rule
at_boundary rule before s = if word_before before then none else rule before s

-- One of (?i)'s characters
abbrev pub folded : ℕ → ℕ → Bool
folded c d = eqb (fold d) c

abbrev pub literal : List ℕ → Pattern
literal [] = empty
literal (c ∷ s) = seq (one (λ d. eqb d c)) (literal s)

-- Under (?i), of small letters.
abbrev pub folded_literal : List ℕ → Pattern
folded_literal [] = empty
folded_literal (c ∷ s) = seq (one (folded c)) (folded_literal s)

-- A match with a group: what is left before the group, after it and after the match.
abbrev pub Capture : Type 0
Capture = List ℕ × List ℕ × List ℕ

abbrev pub after_group : Pattern → List ℕ → List ℕ → List Capture
after_group post start end' = map (λ rest. (start, end', rest)) (rests post end')

abbrev pub from_group : Pattern → Pattern → List ℕ → List Capture
from_group group post start = each (after_group post start) (rests group start)

unfoldable pub captures : Pattern → Pattern → Pattern → List ℕ → List Capture
captures pre group post s = each (from_group group post) (rests pre s)

abbrev pub with_group : (List ℕ → List ℕ) → List ℕ → Option Capture → Option (List ℕ × ℕ)
with_group text s none = none
with_group text s (some (start, end', rest)) = some (
  text (take (length start - length end') (drop (length s - length start) s)),
  length s - length rest,
)

-- A rule that replaces each match by a text made of its group.
abbrev pub by_group : Pattern → Pattern → Pattern → (List ℕ → List ℕ) → Rule
by_group pre group post text before s = with_group text s (first (captures pre group post s))
