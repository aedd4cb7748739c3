-- ===== src/Config/Texts/Laws.antt =====
-- Laws of the text functions: trimming, splitting and reading lines.
use Prim.Native.Char.{Char, char}
use distribuid_system_simula.Prelude.{
  ℕ, false, some, List, [], ◌∷◌, ◌++◌, ◌≡◌, refl, sym, ap, ◌∙◌, inl, inr, All, length, ◌≤◌, arith,
  Bool-cases,
}
use mathlib.Core.List.{append-nil, append_assoc}
use distribuid_system_simula.Config.Texts.{
  chars, text, is, is_space, trim_start, trim_end, cons_unless_blank, trim_space, split_two,
  drop_cr, lines,
}

pub chars-text : (l : List Char) → chars (text l) ≡ l
chars-text [] = refl
chars-text (c ∷ l) = ap (λ m. c ∷ m) (chars-text l)

abbrev pub equals : Char
equals = char 61 tt

abbrev pub newline : Char
newline = char 10 tt

abbrev pub Lacks : ℕ → List Char → Type 0
Lacks n l = All (λ c. is n c ≡ false) l

-- No space at either end.
pub record IsTrimmed (l : List Char) : Type 0 where
  pub start : trim_start l ≡ l
  pub end : trim_end l ≡ l

cons_unless_blank-cons :
    (c : Char) (l m : List Char) (d : Char) → cons_unless_blank c l ≡ c ∷ d ∷ m → l ≡ d ∷ m
cons_unless_blank-cons c [] m d h = absurd (ground arith)
cons_unless_blank-cons c (x ∷ xs) m d h = cc

trim_end-tail :
    (c d : Char) (m : List Char) → trim_end (c ∷ d ∷ m) ≡ c ∷ d ∷ m → trim_end (d ∷ m) ≡ d ∷ m
unfolding trim_end
trim_end-tail c d m h = cons_unless_blank-cons c (trim_end (d ∷ m)) m d h

last_not-space : (c : Char) → trim_end (c ∷ []) ≡ c ∷ [] → is_space c ≡ false
unfolding trim_end
last_not-space c h = elim (Bool-cases (is_space c)) [
  | inl space ↦ absurd (ground arith)
  | inr other ↦ other
]

space-cr : (c : Char) → is_space c ≡ false → is 13 c ≡ false
unfolding is_space
space-cr c h = ground arith

-- A line that ends in no space ends in no carriage return.
pub drop_cr-trimmed : (l : List Char) → trim_end l ≡ l → drop_cr l ≡ l
drop_cr-trimmed [] h = refl
drop_cr-trimmed (c ∷ []) h = rw (space-cr c (last_not-space c h)) refl
drop_cr-trimmed (c ∷ d ∷ m) h = ap (λ l. c ∷ l) (drop_cr-trimmed (d ∷ m) (trim_end-tail c d m h))

pub trim_end-equals : (v : List Char) → trim_end v ≡ v → trim_end (equals ∷ v) ≡ equals ∷ v
unfolding trim_end is_space
trim_end-equals v h = rw h (kept v)
  where
    kept : (v : List Char) → cons_unless_blank equals v ≡ equals ∷ v
    kept [] = refl
    kept (x ∷ xs) = refl

pub trim_end-append :
    (k : List Char) (d : Char) (v : List Char)
    → trim_end (d ∷ v) ≡ d ∷ v
    → trim_end (k ++ d ∷ v) ≡ k ++ d ∷ v
unfolding trim_end
trim_end-append [] d v h = h
trim_end-append (c ∷ []) d v h = rw h refl
trim_end-append (c ∷ x ∷ k) d v h = rw (trim_end-append (x ∷ k) d v h) refl

length-trim_start-le : (l : List Char) → length (trim_start l) ≤ length l
unfolding trim_start
length-trim_start-le [] = omega arith
length-trim_start-le (c ∷ l) = ground (arith, length-trim_start-le l)

trim_start-head :
    (c : Char) (l m : List Char) → trim_start (c ∷ l) ≡ c ∷ l → trim_start (c ∷ m) ≡ c ∷ m
unfolding trim_start
trim_start-head c l m h = elim (Bool-cases (is_space c)) [
  | inl space ↦
      let longer : length (trim_start l) ≡ length (c ∷ l) = ap length (rw space at h) in
      let shorter = length-trim_start-le l in absurd (omega arith)
  | inr other ↦ rw other refl
]

-- A line of a name and a value has no space at either end, if neither has.
pub trim_space-entry :
    (c : Char) (k v : List Char)
    → IsTrimmed (c ∷ k)
    → IsTrimmed v
    → trim_space (c ∷ k ++ equals ∷ v) ≡ c ∷ k ++ equals ∷ v
unfolding trim_space
trim_space-entry c k v tk tv =
    ap trim_end (trim_start-head c k (k ++ equals ∷ v) tk.start)
    ∙ trim_end-append (c ∷ k) equals v (trim_end-equals v tv.end)

pub trim_space-trimmed : (l : List Char) → IsTrimmed l → trim_space l ≡ l
unfolding trim_space
trim_space-trimmed l t = ap trim_end t.start ∙ t.end

pub split_two-entry : (k v : List Char) → Lacks 61 k → split_two (k ++ equals ∷ v) ≡ some (k, v)
unfolding split_two
split_two-entry [] v h = refl
split_two-entry (c ∷ k) v h = rw (h.0, split_two-entry k v h.1) refl

pub lines-line :
    (cur l rest : List Char)
    → Lacks 10 l
    → lines cur (l ++ newline ∷ rest) ≡ (cur ++ l) ∷ lines [] rest
unfolding lines
lines-line cur [] rest h = ap (λ x. x ∷ lines [] rest) (sym (append-nil cur))
lines-line cur (c ∷ l) rest h = rw h.0 (
    lines-line (cur ++ c ∷ []) l rest h.1
    ∙ ap (λ x. x ∷ lines [] rest) (append_assoc cur (c ∷ []) l))
