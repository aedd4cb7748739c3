-- ===== src/Config/Entries.antt =====
-- server/internal/config/config.go, loadEnv: a .env file with one variable on each line.
use Prim.Native.Char.{Char}
use distribuid_system_simula.Prelude.{
  ℕ, false, List, [], ◌∷◌, ◌++◌, map, leb, ◌≡◌, refl, sym, ap, ◌∙◌, All,
}
use mathlib.Core.List.{append_assoc}
use distribuid_system_simula.Config.Texts.{is, trim_end, lines, bytes, scan_lines}
use distribuid_system_simula.Config.Texts.Laws.{
  equals, newline, Lacks, IsTrimmed, drop_cr-trimmed, trim_end-append, trim_end-equals, lines-line,
}

-- A variable with its value, for a line of a .env file; the name is not empty.
pub record Entry : Type 0 where
  pub first : Char
  pub rest : List Char
  pub value : List Char

abbrev pub name_of : Entry → List Char
name_of e = e.first ∷ e.rest

-- A line can hold the entry.
pub record IsEntry (e : Entry) : Type 0 where
  pub no_comment : is 35 e.first ≡ false
  pub one_name : Lacks 61 (name_of e)
  pub name_line : Lacks 10 (name_of e)
  pub value_line : Lacks 10 e.value
  pub name_nul : Lacks 0 (name_of e)
  pub value_nul : Lacks 0 e.value
  pub name_trimmed : IsTrimmed (name_of e)
  pub value_trimmed : IsTrimmed e.value
  pub short : leb 65536 (bytes (name_of e ++ equals ∷ e.value)) ≡ false

-- The file that sets the variables, one on each line.
unfoldable pub print_entries : List Entry → List Char
print_entries [] = []
print_entries (e ∷ es) = name_of e ++ equals ∷ (e.value ++ newline ∷ print_entries es)

unfoldable pub line_of : Entry → List Char
line_of e = name_of e ++ equals ∷ e.value

Lacks-line :
    (n : ℕ) (k v : List Char)
    → is n equals ≡ false
    → Lacks n k
    → Lacks n v
    → Lacks n (k ++ equals ∷ v)
Lacks-line n [] v e hk hv = (e, hv)
Lacks-line n (c ∷ k) v e hk hv = (hk.0, Lacks-line n k v e hk.1 hv)

pub lines-print_entries :
    (es : List Entry) → All IsEntry es → lines [] (print_entries es) ≡ map line_of es
unfolding print_entries line_of lines
lines-print_entries [] h = refl
lines-print_entries (e ∷ es) (h, hs) =
    ap (lines []) (sym (append_assoc (name_of e) (equals ∷ e.value) (newline ∷ print_entries es)))
    ∙ (lines-line [] (name_of e ++ equals ∷ e.value) (print_entries es)
          (Lacks-line 10 (name_of e) e.value refl h.name_line h.value_line)
        ∙ ap (λ ls. (name_of e ++ equals ∷ e.value) ∷ ls) (lines-print_entries es hs))

pub trim_end-line : (e : Entry) → IsEntry e → trim_end (line_of e) ≡ line_of e
unfolding line_of
trim_end-line e h =
    trim_end-append (name_of e) equals e.value (trim_end-equals e.value h.value_trimmed.end)

pub scan_lines-entries :
    (es : List Entry) → All IsEntry es → scan_lines (map line_of es) ≡ map line_of es
unfolding scan_lines
scan_lines-entries [] h = refl
scan_lines-entries (e ∷ es) (h, hs) =
    let fits : leb 65536 (bytes (line_of e)) ≡ false = unfold line_of in h.short in
    rw (fits, drop_cr-trimmed (line_of e) (trim_end-line e h), scan_lines-entries es hs) refl
