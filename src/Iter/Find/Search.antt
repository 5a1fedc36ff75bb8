-- ===== src/Iter/Find/Search.antt =====
-- `bson_iter_find` finds the first element of a key, and `bson_iter_recurse` enters a document.
use libbson.Base.{
  ℕ, zero, suc, ◌^◌, ◌<◌, ◌≡◌, ◌≢◌, inl, inr, refl, sym, ap, ◌∙◌, Bool, true, false, Option, some,
  List, [], ◌∷◌, ◌++◌, length, All, arith, Bool-cases, if◌then◌else◌,
}
use libbson.Format.{Value, AllFit, document_size, document_bytes}
use libbson.Iter.{Iter}
use libbson.Iter.Next.{next, fresh}
use libbson.Iter.Read.{read_key}
use libbson.Iter.Read.Value.{value}
use libbson.Iter.Element.Walk.{Yields, init-Yields}
use libbson.Iter.Find.{is_prefix, same_key, find_loop, find, init_find}
use libbson.Iter.Find.Count.{elements-le}

is_prefix-eq :
    (key ikey : List ℕ) → is_prefix key ikey ≡ true → length ikey ≡ length key → key ≡ ikey
unfolding is_prefix
is_prefix-eq [] [] h e = refl
is_prefix-eq [] (y ∷ ikey) h e = absurd (omega arith)
is_prefix-eq (x ∷ key) [] h e = absurd (omega arith)
is_prefix-eq (x ∷ key) (y ∷ ikey) h e = ground (arith, is_prefix-eq key ikey)

is_prefix_self : (key : List ℕ) → is_prefix key key ≡ true
unfolding is_prefix
is_prefix_self [] = refl
is_prefix_self (x ∷ key) = ground (arith, is_prefix_self key)

-- The test of the loop is the equality of the keys.
pub same_key-eq : (key ikey : List ℕ) → same_key key ikey ≡ true → ikey ≡ key
unfolding same_key
same_key-eq key ikey h = sym (is_prefix-eq key ikey (ground arith) (ground arith))

pub same_key-ne : (key ikey : List ℕ) → same_key key ikey ≡ false → ikey ≢ key
unfolding same_key
same_key-ne key ikey h e = ground (arith, is_prefix_self key)

-- How a search over the elements ends: on the first element of the key, or behind the last one.
pub data Search (key : List ℕ) (elements : List (List ℕ × Value)) (r : Option (Iter × Bool))
    : Type 0 where
  found :
      (before after : List (List ℕ × Value)) (v : Value) (it : Iter)
      → elements ≡ before ++ ((key, v) ∷ after)
      → All (λ (e : List ℕ × Value). e.0 ≢ key) before
      → r ≡ some (it, true)
      → read_key it ≡ some key
      → value it ≡ some (some v)
      → Search key elements r
  missing :
      (it : Iter)
      → All (λ (e : List ℕ × Value). e.0 ≢ key) elements
      → r ≡ some (it, false)
      → Search key elements r

find_step :
    (fuel : ℕ) (key : List ℕ) (it it' : Iter)
    → next it ≡ some (it', false)
    → find_loop (suc fuel) key it ≡ some (it', false)
unfolding find_loop
find_step fuel key it it' e = rw e refl

find_step_on :
    (fuel : ℕ) (key ikey : List ℕ) (it it' : Iter)
    → next it ≡ some (it', true)
    → read_key it' ≡ some ikey
    → find_loop (suc fuel) key it
      ≡ (if same_key key ikey then some (it', true) else find_loop fuel key it')
unfolding find_loop
find_step_on fuel key ikey it it' e ek = rw (e, ek) refl

Search-loop :
    (fuel : ℕ) (key : List ℕ) (elements : List (List ℕ × Value)) (it : Iter)
    → Yields it elements
    → length elements < fuel
    → Search key elements (find_loop fuel key it)
Search-loop zero key elements it y enough = absurd (omega arith)
Search-loop (suc fuel) key [] it (it', e) enough = missing it' tt (find_step fuel key it it' e)
Search-loop (suc fuel) key ((ikey, v) ∷ rest) it (it', e, ek, ev, more) enough =
    let step = find_step_on fuel key ikey it it' e ek in
    elim (Bool-cases (same_key key ikey)) [
      | inl same ↦
          let eq = same_key-eq key ikey same in
          found [] rest v it' (ap (λ (k : List ℕ). (k, v) ∷ rest) eq) tt
            (step ∙ ap (λ (b : Bool). if b then some (it', true) else find_loop fuel key it') same)
            (ek ∙ ap some eq) ev
      | inr other ↦
          let on =
            step
            ∙ ap (λ (b : Bool). if b then some (it', true) else find_loop fuel key it') other in
          elim (Search-loop fuel key rest it' more (omega arith)) [
            | found before after w it'' split none_before r rk rv ↦
                found ((ikey, v) ∷ before) after w it'' (ap (λ t. (ikey, v) ∷ t) split)
                  (same_key-ne key ikey other, none_before) (on ∙ r) rk rv
            | missing it'' none_at_all r ↦
                missing it'' (same_key-ne key ikey other, none_at_all) (on ∙ r)
          ]
    ]

-- On the bytes of a document, with anything behind them, where the keys are without NUL, the values
-- have the sizes of their C types and the document is shorter than 2 ^ 31 bytes,
-- `bson_iter_init_find` ends on the first element of the key, whose key and value can be read
-- there, or answers false where no element has the key.
pub init_find-Search :
    (elements : List (List ℕ × Value)) (slack key : List ℕ)
    → AllFit elements
    → document_size elements < 2 ^ 31
    → Search key elements
        (init_find (document_bytes elements ++ slack) (document_size elements) key)
unfolding init_find find
init_find-Search elements slack key fit small =
    let (e, y) = init-Yields elements slack fit small in
    rw e (
      Search-loop (suc (document_size elements)) key elements
        (fresh (document_bytes elements ++ slack) (document_size elements)) y
        (omega (arith, elements-le elements)))
