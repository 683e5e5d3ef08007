-- ===== src/Dtb/Names.antt =====
-- The strings block of src/dtb.c: an offset that `intern` gives is where the name stands.
use quanta.Common.{
  ℕ, zero, suc, ◌+◌, ◌<◌, ◌≡◌, arith, refl, sym, ◌∙◌, true, ltb, leb, inl, inr, Bool-cases, ==_refl,
  List, [], ◌∷◌, ◌++◌, Option, none, some,
}
use quanta.Common.Word.{update}
use quanta.Dtb.{
  Fdt, size, put_list, name_at, strlen_at, find_name, append_name, intern, strings_max,
}

put_list-below : (p : ℕ → ℕ) (i : ℕ) (bs : List ℕ) (k : ℕ) → k < i → put_list p i bs k ≡ p k
unfolding put_list
put_list-below p i [] k h = refl
put_list-below p i (b ∷ bs) k h =
    put_list-below (update p i b) (i + 1) bs k (omega arith) ∙ ground arith

-- A name that was written with its NUL stands there.
name_at-put_list :
    (p : ℕ → ℕ) (i : ℕ) (name : List ℕ) → name_at (put_list p i (name ++ 0 ∷ [])) i name ≡ true
unfolding name_at put_list
name_at-put_list p i [] = ground arith
name_at-put_list p i (c ∷ cs) =
    let first = put_list-below (update p i c) (i + 1) (cs ++ 0 ∷ []) i (omega arith) in
    let rest = name_at-put_list (update p i c) (i + 1) cs in
    rw (first, ==_refl i, ==_refl c, rest) refl

find_name-name_at :
    (f : Fdt) (name : List ℕ) (left i j : ℕ)
    → find_name f name left i ≡ some j
    → name_at f.strings j name ≡ true
unfolding find_name
find_name-name_at f name zero i j e = absurd (ground (arith, e))
find_name-name_at f name (suc left) i j e =
    let next = i + (strlen_at f.strings strings_max i + 1) in
    let further = find_name-name_at f name left next j in
    elim (Bool-cases (leb f.slen i)) [
      | inl g ↦ absurd (ground (arith, e, g))
      | inr g ↦ elim (Bool-cases (name_at f.strings i name)) [
        | inl n ↦ let same : i ≡ j = ground (arith, e, g, n) in rw (sym same) n
        | inr n ↦ further (ground (arith, e, g, n))
      ]
    ]

append_name-name_at :
    (f : Fdt) (name : List ℕ) (o : Option ℕ)
    → find_name f name f.slen 0 ≡ o
    → (append_name f name o).1.ok ≡ true
    → name_at (append_name f name o).1.strings (append_name f name o).0 name ≡ true
unfolding append_name
append_name-name_at f name (some i) e h = find_name-name_at f name f.slen 0 i e
append_name-name_at f name none e h =
    elim (Bool-cases (ltb strings_max (f.slen + (size name + 1)))) [
      | inl g ↦ absurd (ground (arith, g, h))
      | inr g ↦ rw g (name_at-put_list f.strings f.slen name)
    ]

-- Unless the block is full, the offset that `intern` gives for a name is one at which the strings
-- block holds the name, whether it was there before or is new.
pub intern-name_at :
    (f : Fdt) (name : List ℕ)
    → (intern f name).1.ok ≡ true
    → name_at (intern f name).1.strings (intern f name).0 name ≡ true
unfolding intern
intern-name_at f name h = append_name-name_at f name (find_name f name f.slen 0) refl h
