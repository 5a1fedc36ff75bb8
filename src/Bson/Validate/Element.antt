-- ===== src/Bson/Validate/Element.antt =====
-- src/bson/bson.c: what the functions of `bson_validate_funcs` answer at one element.
use libbson.Base.{
  ℕ, ◌≡◌, refl, sym, ap, ◌∙◌, Bool, true, false, Option, none, some, List, if◌then◌else◌, ◌>>=◌,
}
use mathlib.Core.Path.{subst}
use libbson.Format.{Value}
use libbson.Run.{Run, done}
use libbson.Bson.{Bson}
use libbson.Iter.{Iter}
use libbson.Iter.Visit.{is_valid_key, corrupt}
use libbson.Iter.Visit.Calls.{Lands, stopped, going, call_value, calls_at, at_fault}
use libbson.Bson.Validate.{Phase, ValidateState, validate_funcs, validate_before}
use libbson.Bson.Validate.Spec.{past_tests, past_key}
use libbson.Bson.Validate.Judge.{verdict_of, verdict, Agrees, goes_on, validate_before_lem}

-- The state behind a visit.
abbrev pub Judged : ℕ → Run ValidateState → Option Phase → Type 0
Judged flags r x = (st : ValidateState) × (r ≡ done st) × (st.flags ≡ flags) × (verdict st ≡ x)

-- What follows a value: the visit stops or goes on.
abbrev pub behind : Option (Phase × Bool) → (Phase → Option Phase) → Option Phase
behind none others = none
behind (some (phase, true)) others = some phase
behind (some (phase, false)) others = others phase

abbrev pub Rests :
    ℕ → (Run ValidateState → Type 0) → Run ValidateState → (Phase → Option Phase) → Type 0
Rests flags Rest r others =
    (st : ValidateState)
    → st.flags ≡ flags
    → Rest (done st)
    → Judged flags r (verdict st >>= others)

module _ (visit : Iter → Bson → ValidateState → Run (ValidateState × Bool)) (flags : ℕ) (it : Iter)
    (Rest : Run ValidateState → Type 0) (r : Run ValidateState × Bool)
    (others : Phase → Option Phase) (rests : Rests flags Rest r.0 others) where
  value_lem :
      (s : Run ValidateState) (a : ValidateState) (stop : Bool) (x : Option (Phase × Bool))
      → Agrees flags (a, stop) x
      → Lands
          (Run ValidateState)
          (validate_funcs visit)
          s
          it
          (if stop then stopped (done a) it else going (done a))
          Rest
          r
      → Judged flags r.0 (behind x others)
  value_lem s a true none agrees lands = (a, ap (λ p. p.0) lands, agrees.0, agrees.1)
  value_lem s a false none agrees lands =
      let (st, run, f, v) = rests a agrees.0 lands in
      (st, run, f, v ∙ ap (λ p. p >>= others) agrees.1)
  value_lem s a true (some (phase, true)) agrees lands =
      (a, ap (λ p. p.0) lands, agrees.0, agrees.1)
  value_lem s a true (some (phase, false)) agrees lands = absurd (cc agrees.2)
  value_lem s a false (some (phase, true)) agrees lands = absurd (cc agrees.2)
  value_lem s a false (some (phase, false)) agrees lands =
      let (st, run, f, v) = rests a agrees.0 lands in
      (st, run, f, v ∙ ap (λ p. p >>= others) agrees.1)

  -- The calls at an element whose key is UTF-8.
  element_lem :
      (st : ValidateState) (b a : ValidateState) (stops stop : Bool) (vt : Bool) (x : Option Phase)
      (f : Phase → Option (Phase × Bool))
      → Agrees flags (b, stops) (goes_on x)
      → Agrees flags (a, stop) (x >>= f)
      → Lands
          (Run ValidateState)
          (validate_funcs visit)
          (done st)
          it
          (if stops
            then stopped (done b) it
            else if vt
            then (if stop then stopped (done a) it else going (done a))
            else stopped (done b) (at_fault it))
          Rest
          r
      → Judged flags r.0 (x >>= λ p. if vt then behind (f p) others else some p)
  element_lem st b a true stop vt none f ab aa lands = (b, ap (λ p. p.0) lands, ab.0, ab.1)
  element_lem st b a true stop vt (some p) f ab aa lands = absurd (cc ab.2)
  element_lem st b a false stop true none f ab aa lands = value_lem (done st) a stop none aa lands
  element_lem st b a false stop true (some p) f ab aa lands =
      value_lem (done st) a stop (f p) aa lands
  element_lem st b a false stop false none f ab aa lands = (b, ap (λ p. p.0) lands, ab.0, ab.1)
  element_lem st b a false stop false (some p) f ab aa lands = (b, ap (λ p. p.0) lands, ab.0, ab.1)

verdict_lem :
    (flags : ℕ) (a : ValidateState × Bool) (x : Option Phase)
    → Agrees flags a (goes_on x)
    → verdict a.0 ≡ x
verdict_lem flags a none agrees = agrees.1
verdict_lem flags a (some p) agrees = agrees.1

flags_lem :
    (flags : ℕ) (a : ValidateState × Bool) (x : Option (Phase × Bool))
    → Agrees flags a x
    → a.0.flags ≡ flags
flags_lem flags a none agrees = agrees.0
flags_lem flags a (some p) agrees = agrees.0

regroup :
    (at : Option ℕ) (phase : Phase) (tests tests' g : Phase → Option Phase)
    → ((p : Phase) → tests' p ≡ tests p)
    → ((verdict_of at phase >>= tests) >>= g) ≡ (verdict_of at phase >>= λ p. tests' p >>= g)
regroup none phase tests tests' g same = ap (λ x. x >>= g) (sym (same phase))
regroup (some a) phase tests tests' g same = refl

none_lem :
    (at : Option ℕ) (phase : Phase) (g : Phase → Option Phase)
    → none ≡ ((verdict_of at phase >>= λ p. none) >>= g)
none_lem none phase g = refl
none_lem (some a) phase g = refl

past_key_lem :
    (flags : ℕ) (key : List ℕ) (vk : Bool)
    → is_valid_key key ≡ some vk
    → (p : Phase) → past_key flags p key ≡ (if vk then past_tests flags p key else none)
unfolding past_key
past_key_lem flags key vk e p = rw e refl

-- A turn of the visit, whatever the value is.
module _ (visit : Iter → Bson → ValidateState → Run (ValidateState × Bool)) (flags : ℕ)
    (Rest : Run ValidateState → Type 0) (r : Run ValidateState × Bool)
    (others : Phase → Option Phase) (rests : Rests flags Rest r.0 others) where
  pub turn_lem :
      (it : Iter) (key : List ℕ) (v : Value) (vk vt : Bool) (st : ValidateState)
      (f : Phase → Option (Phase × Bool))
      → st.flags ≡ flags
      → is_valid_key key ≡ some vk
      → ((b : ValidateState)
          → b.flags ≡ flags
          → (a : ValidateState × Bool) × (call_value
                (Run ValidateState)
                (validate_funcs visit)
                it
                key
                v
                (done b)
              ≡ (done a.0, a.1))
            × Agrees flags a (verdict b >>= f))
      → Lands
          (Run ValidateState)
          (validate_funcs visit)
          (done st)
          it
          (calls_at (Run ValidateState) (validate_funcs visit) vk vt it key v (done st))
          Rest
          r
      → Judged flags r.0 (
          verdict st >>= λ p.
          past_key flags p key >>= λ q. if vt then behind (f q) others else some q)
  unfolding corrupt
  turn_lem it key v false vt st f same ek called lands = (
    _,
    ap (λ p. p.0) lands,
    same,
    none_lem st.err_offset st.phase ending
        ∙ regroup st.err_offset st.phase (λ p. none) (λ p. past_key flags p key) ending
            (past_key_lem flags key false ek),
  )
    where
      ending : Phase → Option Phase
      ending q = if vt then behind (f q) others else some q
  turn_lem it key v true vt st f same ek called lands =
      let b = validate_before it key st in
      let x = verdict st >>= λ p. past_tests flags p key in
      let agrees : Agrees flags b (goes_on x) =
        subst (λ (k : ℕ). Agrees k b (goes_on (verdict st >>= λ p. past_tests k p key))) same
          (validate_before_lem it key st) in
      let (a, run, answer) = called b.0 (flags_lem flags b (goes_on x) agrees) in
      let (st', back, flags', v') =
        element_lem visit flags it Rest r others rests st b.0 a.0 b.1 a.1 vt x f agrees
          (subst (λ y. Agrees flags a (y >>= f)) (verdict_lem flags b x agrees) answer)
          (subst
            (λ w.
              Lands (Run ValidateState) (validate_funcs visit) (done st) it
                (if b.1
                  then stopped (done b.0) it
                  else if vt
                  then (if w.1 then stopped w.0 it else going w.0)
                  else stopped (done b.0) (at_fault it))
                Rest r)
            run lands) in
      (
        st',
        back,
        flags',
        v'
            ∙ regroup st.err_offset st.phase (λ p. past_tests flags p key)
                (λ p. past_key flags p key) (λ q. if vt then behind (f q) others else some q)
                (past_key_lem flags key true ek),
      )
