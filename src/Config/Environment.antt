-- ===== src/Config/Environment.antt =====
-- server/internal/config/config.go, loadEnv: the environment after a .env file was read.
use Prim.Native.Char.{Char}
use distribuid_system_simula.Prelude.{
  String, false, true, not, ◌&&◌, ◌||◌, if◌then◌else◌, Option, none, some, List, [], ◌∷◌, ◌++◌, map,
  ◌==◌, eq_iff, ◌≡◌, inl, inr, refl, sym, ap, ◌∙◌, All, arith, Bool-cases,
}
use distribuid_system_simula.Config.{
  has_equals, has_nul, true, has_nul, has_equals, chars, Bool, Environ, set_env, set_unless_set,
  is_comment, assign, load_line, load_lines, load_env,
}
use distribuid_system_simula.Config.Texts.{text, trim_space, split_two}
use distribuid_system_simula.Config.Texts.Laws.{
  equals, Lacks, chars-text, trim_space-entry, trim_space-trimmed, split_two-entry,
}
use distribuid_system_simula.Config.Entries.{
  Entry, name_of, IsEntry, print_entries, line_of, lines-print_entries, scan_lines-entries,
}

set_unless_set-keeps :
    (key value name : String) (env : Environ)
    → (env name == "") ≡ false
    → set_unless_set key value env name ≡ env name
unfolding set_unless_set set_env
set_unless_set-keeps key value name env h = elim (Bool-cases (name == key)) [
  | inl same ↦
      let e : name ≡ key = (eq_iff name key).0 same in
      let given : (env key == "") ≡ false = rw (sym e) h in rw given refl
  | inr other ↦ rw other (ground arith)
]

load_line-keeps :
    (line : List Char) (name : String) (env : Environ)
    → (env name == "") ≡ false
    → load_line line env name ≡ env name
unfolding load_line
load_line-keeps line name env h = elim (Bool-cases (is_comment line)) [
  | inl comment ↦ rw comment refl
  | inr other ↦ rw other (assigned (split_two line))
]
  where
    assigned : (parts : Option (List Char × List Char)) → assign parts env name ≡ env name
    assigned none = refl
    assigned (some (k, v)) = set_unless_set-keeps _ _ name env h

load_lines-keeps :
    (ls : List (List Char)) (name : String) (env : Environ)
    → (env name == "") ≡ false
    → load_lines ls env name ≡ env name
unfolding load_lines
load_lines-keeps [] name env h = refl
load_lines-keeps (line ∷ ls) name env h =
    let kept = load_line-keeps (trim_space line) name env h in
    load_lines-keeps ls name (load_line (trim_space line) env) (rw kept h) ∙ kept

-- A .env file, whatever is in it, never changes a variable that is set to a non-empty text.
pub load_env-keeps :
    (file : Option String) (name : String) (env : Environ)
    → (env name == "") ≡ false
    → load_env file env name ≡ env name
unfolding load_env
load_env-keeps none name env h = refl
load_env-keeps (some file) name env h = load_lines-keeps _ name env h

-- The value of the first entry of the name with a value that is not empty.
unfoldable pub first_value : List Entry → String → String
first_value [] name = ""
first_value (e ∷ es) name =
    let later = first_value es name in
    if name == text (name_of e) && not (text e.value == "") then text e.value else later

set_each : List Entry → Environ → Environ
set_each [] env = env
set_each (e ∷ es) env = set_each es (set_unless_set (text (name_of e)) (text e.value) env)

load_line-entry :
    (e : Entry) (env : Environ)
    → IsEntry e
    → load_line (trim_space (line_of e)) env ≡ set_unless_set (text (name_of e)) (text e.value) env
unfolding load_line line_of
load_line-entry e env h =
    ap (λ l. load_line l env)
      (trim_space-entry e.first e.rest e.value h.name_trimmed h.value_trimmed)
    ∙ (λ i name. read name i)
  where
    read :
        (name : String)
        → load_line (name_of e ++ equals ∷ e.value) env name
          ≡ set_unless_set (text (name_of e)) (text e.value) env name
    read name =
        rw
          (
            h.no_comment,
            split_two-entry (name_of e) e.value h.one_name,
            trim_space-trimmed (name_of e) h.name_trimmed,
            trim_space-trimmed e.value h.value_trimmed,
          )
          refl

load_lines-entries :
    (es : List Entry) (env : Environ)
    → All IsEntry es
    → load_lines (map line_of es) env ≡ set_each es env
unfolding load_lines set_each
load_lines-entries [] env h = refl
load_lines-entries (e ∷ es) env (h, hs) =
    ap (load_lines (map line_of es)) (load_line-entry e env h) ∙ load_lines-entries es _ hs

Lacks-has_nul : (cs : List Char) → Lacks 0 cs → has_nul cs ≡ false
Lacks-has_nul [] h = refl
Lacks-has_nul (c ∷ cs) (h, hs) = rw (h, Lacks-has_nul cs hs) refl

Lacks-has_equals : (cs : List Char) → Lacks 61 cs → has_equals cs ≡ false
Lacks-has_equals [] h = refl
Lacks-has_equals (c ∷ cs) (h, hs) = rw (h, Lacks-has_equals cs hs) refl

is_empty : List Char → Bool
is_empty [] = true
is_empty (c ∷ cs) = false

text-not_empty : (c : Char) (cs : List Char) → (text (c ∷ cs) == "") ≡ false
unfolding is_empty
text-not_empty c cs = elim (Bool-cases (text (c ∷ cs) == "")) [
  | inr differ ↦ differ
  | inl same ↦
      let e : text (c ∷ cs) ≡ "" = (eq_iff (text (c ∷ cs)) "").0 same in
      let none_left : c ∷ cs ≡ [] = sym (chars-text (c ∷ cs)) ∙ ap chars e in
      let no : false ≡ true = ap is_empty none_left in absurd cc
]

has_equals-text : (cs : List Char) → Lacks 61 cs → has_equals (chars (text cs)) ≡ false
has_equals-text cs h = rw (chars-text cs) (Lacks-has_equals cs h)

has_nul-text : (cs : List Char) → Lacks 0 cs → has_nul (chars (text cs)) ≡ false
has_nul-text cs h = rw (chars-text cs) (Lacks-has_nul cs h)

none_of :
    (a b c d : Bool) (x y : String)
    → a ≡ false
    → b ≡ false
    → c ≡ false
    → d ≡ false
    → (if a || (b || (c || d)) then x else y) ≡ y
none_of a b c d x y ha hb hc hd = rw (ha, hb, hc, hd) refl

set_env-entry :
    (e : Entry) (env : Environ) (name : String)
    → IsEntry e
    → set_env (text (name_of e)) (text e.value) env name
      ≡ (if name == text (name_of e) then text e.value else env name)
unfolding set_env
set_env-entry e env name h =
    none_of (text (name_of e) == "") (has_equals (chars (text (name_of e))))
      (has_nul (chars (text (name_of e)))) (has_nul (chars (text e.value))) (env name) _
      (text-not_empty e.first e.rest) (has_equals-text (name_of e) h.one_name)
      (has_nul-text (name_of e) h.name_nul) (has_nul-text e.value h.value_nul)

-- A test within a test, for texts.
both :
    (a b : Bool) (v x : String)
    → (if a then (if b then v else x) else x) ≡ (if a && b then v else x)
both true b v x = refl
both false b v x = refl

unset : (a b : Bool) (v x : String) → (if a then x else x) ≡ (if b && false then v else x)
unset true true v x = refl
unset true false v x = refl
unset false true v x = refl
unset false false v x = refl

-- A variable takes the value of an entry exactly if it is empty.
set_entry :
    (e : Entry) (env : Environ) (name : String)
    → IsEntry e
    → set_unless_set (text (name_of e)) (text e.value) env name
      ≡ (if env name == "" && name == text (name_of e) then text e.value else env name)
unfolding set_unless_set
set_entry e env name h = elim (Bool-cases (name == text (name_of e))) [
  | inl same ↦
      let is : name ≡ text (name_of e) = (eq_iff name (text (name_of e))).0 same in
      ap (λ k. if env k == "" then set_env (text (name_of e)) (text e.value) env name else env name)
        (sym is)
      ∙ rw (set_env-entry e env name h) (both (env name == "") _ (text e.value) (env name))
  | inr other ↦
      rw (set_env-entry e env name h, other)
        (unset (env (text (name_of e)) == "") (env name == "") (text e.value) (env name))
]

empty_or : (x : String) → x ≡ (if x == "" then "" else x)
empty_or x = elim (Bool-cases (x == "")) [
  | inl same ↦ rw same ((eq_iff x "").0 same)
  | inr given ↦ rw given refl
]

first_or :
    (a b : Bool) (x v later : String)
    → (x == "") ≡ a
    → (if (if a && b then v else x) == "" then later else (if a && b then v else x))
      ≡ (if a then (if b && not (v == "") then v else later) else x)
first_or true true x v later h = elim (Bool-cases (v == "")) [
  | inl same ↦ rw same refl
  | inr given ↦ rw given refl
]
first_or true false x v later h = rw h refl
first_or false b x v later h = rw h refl

set_each_lem :
    (es : List Entry) (env : Environ) (name : String)
    → All IsEntry es
    → set_each es env name ≡ (if env name == "" then first_value es name else env name)
unfolding set_each first_value
set_each_lem [] env name h = empty_or (env name)
set_each_lem (e ∷ es) env name (h, hs) =
    set_each_lem es _ name hs
    ∙ rw (set_entry e env name h) (
        first_or (env name == "") (name == text (name_of e)) (env name) (text e.value)
          (first_value es name) refl)

-- Reading back a .env file of entries, one on each line: a variable that is not empty keeps its
-- value; any other, whether it is not set or is set to the empty text, gets the first value of its
-- name in the file that is not empty, if there is one, and is empty otherwise. Names and values are
-- without spaces at their ends, line ends and NULs, a name is not empty, has no `=` and does not
-- begin with `#`, and a line is below 64 KB.
pub load_env-print_entries :
    (es : List Entry) (env : Environ) (name : String)
    → All IsEntry es
    → load_env (some (text (print_entries es))) env name
      ≡ (if env name == "" then first_value es name else env name)
unfolding load_env
load_env-print_entries es env name h =
    rw (chars-text (print_entries es), lines-print_entries es h, scan_lines-entries es h)
      ((λ i. load_lines-entries es env h i name) ∙ set_each_lem es env name h)
