-- ===== src/Iter/Find/Count.antt =====
-- `bson_count_keys` ends, and counts the elements.
use libbson.Base.{
  ℕ, zero, suc, ◌+◌, ◌^◌, ◌≤◌, ◌<◌, ◌≡◌, inl, inr, refl, ap, ◌∙◌, Bool, true, false, some, List, [],
  ◌∷◌, ◌++◌, length, length-append, All, arith, ltb, Bool-cases, if◌then◌else◌,
}
use libbson.Base.Words.{IsByte, add32}
use libbson.Format.{
  Value, element, encode, value_type, encode_all, AllFit, document_size, document_bytes,
}
use libbson.Iter.{Iter}
use libbson.Iter.Next.{Next, next, next_internal, init, fresh}
use libbson.Iter.Next.Safe.{IsValid, on_field, at_end, next_internal-Outcome}
use libbson.Iter.Element.Walk.{Yields, init-Yields}
use libbson.Iter.Find.{count_loop, count_keys}

pub next_of :
    (it : Iter) (n : Next) → next_internal it ≡ some n → next it ≡ some (n.iter, n.decoded)
unfolding next
next_of it n e = rw e refl

count_step :
    (fuel count : ℕ) (it it' : Iter) (ok : Bool)
    → next it ≡ some (it', ok)
    → count_loop (suc fuel) it count
      ≡ (if ok then count_loop fuel it' (add32 count 1) else some count)
unfolding count_loop
count_step fuel count it it' ok e = rw e refl

count_ends :
    (fuel count : ℕ) (raw : List ℕ) (it : Iter)
    → IsValid raw it
    → it.len + 4 ≤ length raw
    → it.len < fuel + it.next_off
    → (n : ℕ) × (count_loop fuel it count ≡ some n)
count_ends zero count raw it v slack enough = absurd (omega (arith, v.inside))
count_ends (suc fuel) count raw it v slack enough =
    let (n, e, out) = next_internal-Outcome raw it v (inl slack) in
    let step = count_step fuel count it n.iter n.decoded (next_of it n e) in
    elim out [
      | on_field yes_ v' len' off' ahead ↦
          let (r, er) =
            count_ends fuel (add32 count 1) raw n.iter v' (omega (arith, len'))
              (omega (arith, len')) in
          (
            r,
            step
                ∙ ap
                    (λ (b : Bool). if b then count_loop fuel n.iter (add32 count 1) else some count)
                    yes_
                ∙ er,
          )
      | at_end no_ cleared ↦ (
        count,
        step
            ∙ ap (λ (b : Bool). if b then count_loop fuel n.iter (add32 count 1) else some count)
                no_,
      )
    ]

-- On any bytes, with four more in reach behind the document, which is shorter than 2 ^ 31 bytes,
-- `bson_count_keys` ends with a number and reads nothing past the memory.
pub count_keys-ends :
    (raw : List ℕ) (len : ℕ)
    → All IsByte raw
    → len + 4 ≤ length raw
    → len < 2 ^ 31
    → (n : ℕ) × (count_keys raw len ≡ some n)
unfolding count_keys init
count_keys-ends raw len bytes slack small = elim (Bool-cases (ltb len 5)) [
  | inl short ↦ (0, rw short refl)
  | inr long ↦
      let (n, e) =
        count_ends (suc len) 0 raw (fresh raw len)
          (record {
            at = refl;
            bytes = bytes;
            fits = omega arith;
            small = small;
            header = omega arith;
            inside = ground arith;
          })
          slack (omega arith) in
      (n, rw long e)
]

count_elements :
    (elements : List (List ℕ × Value)) (fuel count : ℕ) (it : Iter)
    → Yields it elements
    → length elements < fuel
    → count + length elements < 2 ^ 32
    → count_loop fuel it count ≡ some (count + length elements)
count_elements elements zero count it y enough small = absurd (omega arith)
count_elements [] (suc fuel) count it (it', e) enough small =
    count_step fuel count it it' false e ∙ ap some (omega arith)
count_elements ((key, v) ∷ rest) (suc fuel) count it (it', e, ek, ev, more) enough small =
    count_step fuel count it it' true e
    ∙ count_elements rest fuel (add32 count 1) it' more (omega arith) (omega arith)
    ∙ ap some (omega arith)

pub elements-le :
    (elements : List (List ℕ × Value)) → length elements ≤ length (encode_all elements)
elements-le [] = omega arith
elements-le ((key, v) ∷ rest) = omega (
  arith,
  elements-le rest,
  length-append (element (value_type v) key (encode v)) (encode_all rest),
)

-- On the bytes of a document, with anything behind them, where the keys are without NUL, the values
-- have the sizes of their C types and the document is shorter than 2 ^ 31 bytes, `bson_count_keys`
-- answers the number of the elements.
pub count_keys-length :
    (elements : List (List ℕ × Value)) (slack : List ℕ)
    → AllFit elements
    → document_size elements < 2 ^ 31
    → count_keys (document_bytes elements ++ slack) (document_size elements)
      ≡ some (length elements)
unfolding count_keys
count_keys-length elements slack fit small =
    let (e, y) = init-Yields elements slack fit small in
    rw e (
      count_elements elements (suc (document_size elements)) 0
        (fresh (document_bytes elements ++ slack) (document_size elements)) y
        (omega (arith, elements-le elements)) (omega (arith, elements-le elements))
      ∙ ap some (omega arith))
