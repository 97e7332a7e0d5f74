-- ===== src/Ffi/Api/Handles.antt =====
-- The life of a handle, crates/ffi/src/api.rs.
use mathlib.Core.Option
use exepense_db.Base.{
  ℕ, ◌+◌, ◌<◌, ◌≤◌, ◌%◌, ◌≡◌, ◌≢◌, refl, ap, ◌∙◌, Option, none, some, List, [], ◌∷◌, ◌==◌, ==_refl,
  ne→==, if◌then◌else◌, Result, ok, err, arith,
}
use exepense_db.Base.Words.{u64_mod}
use exepense_db.Lsm.Engine.{Engine, LsmError}
use exepense_db.Ffi.{FfiError, invalid_handle}
use exepense_db.Ffi.Api.{
  Registry, lookup, remove, store, counted, ok_or_invalid, get_engine, register, open_db, close_db,
}

if_same : {A : Type 0} (h : ℕ) (x y : A) → (if h == h then x else y) ≡ x
if_same h x y = ap (λ b. if b then x else y) (==_refl h)

pub if_other : {A : Type 0} (h j : ℕ) (x y : A) → h ≢ j → (if h == j then x else y) ≡ y
if_other h j x y n = ap (λ b. if b then x else y) (ne→== h j n)

module _ {Reader : Type 0} where
  pub lookup-remove :
      (h j : ℕ) (es : List (ℕ × Engine Reader))
      → lookup j (remove h es) ≡ (if h == j then none else lookup j es)
  unfolding lookup remove
  lookup-remove h j [] = ground arith
  lookup-remove h j ((i, e) ∷ es) = ground (arith, lookup-remove h j es)

  pub lookup-store_ne :
      (h j : ℕ) (e : Engine Reader) (es : List (ℕ × Engine Reader))
      → h ≢ j
      → lookup j (store h e es) ≡ lookup j es
  unfolding lookup store
  lookup-store_ne h j e [] n = refl
  lookup-store_ne h j e ((i, d) ∷ es) n = ground (arith, lookup-store_ne h j e es n)

  lookup-opened :
      (h j : ℕ) (e : Engine Reader) (es : List (ℕ × Engine Reader))
      → lookup j ((h, e) ∷ remove h es) ≡ (if h == j then some e else lookup j es)
  unfolding lookup remove
  lookup-opened h j e es = ground (arith, lookup-remove h j es)

  lookup-closed :
      (h j : ℕ) (e : Engine Reader) (es : List (ℕ × Engine Reader))
      → lookup j (remove h ((h, e) ∷ remove h es)) ≡ (if h == j then none else lookup j es)
  unfolding lookup remove
  lookup-closed h j e es =
      lookup-remove h j ((h, e) ∷ remove h es) ∙ ground (arith, lookup-remove h j es)

  -- What `get_engine` makes of a lookup.
  abbrev pub answer :
      {F64 : Type 0} → ℕ → Option (Engine Reader) → Result (FfiError F64) (Engine Reader)
  answer s o = ok_or_invalid (Option.map (counted s) o)

  -- The same engine with another value of the counter, which all engines share.
  abbrev pub recount :
      {F64 : Type 0}
      → ℕ
      → Result (FfiError F64) (Engine Reader)
      → Result (FfiError F64) (Engine Reader)
  recount s (ok e) = ok (counted s e)
  recount s (err x) = err x

  pub answer-recount :
      {F64 : Type 0} (s s' : ℕ) (o : Option (Engine Reader))
      → answer {F64 = F64} s o ≡ recount s (answer s' o)
  answer-recount s s' none = refl
  answer-recount s s' (some e) = refl

  -- No handle that is still to be given is in use.
  unfoldable pub IsValid : Registry Reader → Type 0
  IsValid reg = (h : ℕ) → reg.next_handle ≤ h → lookup h reg.engines ≡ none

  module _ {F64 : Type 0} where
    -- Open a database in a valid registry whose handles do not overflow, where `LsmEngine::open` succeeds
    -- from the counter of the process with the engine `e`. The handle is one that no engine had and gives
    -- `e`. The counter is the one of `e`; all other handles give the engine that they gave with that
    -- counter, and the registry is valid. Close the handle: it is invalid, the others are as before but
    -- for the counter, which stays, and the registry is valid.
    pub close_db-open_db :
        (reg : Registry Reader) (opens : ℕ → Result LsmError (Engine Reader)) (e : Engine Reader)
        → IsValid reg
        → reg.next_handle + 1 < u64_mod
        → opens reg.next_seq ≡ ok e
        → (h : ℕ) × (after : Registry Reader) × (open_db {F64 = F64} reg opens ≡ (ok h, after))
          × (get_engine {F64 = F64} reg h ≡ err invalid_handle)
          × (get_engine {F64 = F64} after h ≡ ok e)
          × ((j : ℕ)
              → h ≢ j
              → get_engine {F64 = F64} after j ≡ recount e.next_seq (get_engine reg j))
          × IsValid after
          × (get_engine {F64 = F64} (close_db after h) h ≡ err invalid_handle)
          × ((j : ℕ)
              → h ≢ j
              → get_engine {F64 = F64} (close_db after h) j ≡ recount e.next_seq (get_engine reg j))
          × IsValid (close_db after h)
    unfolding get_engine close_db IsValid
    close_db-open_db reg opens e valid small opened =
        let h = reg.next_handle in
        let es = reg.engines in
        let s = e.next_seq in
        (
          h,
          (register {F64 = F64} reg (ok e)).1,
          ap (register {F64 = F64} reg) opened,
          ap (answer reg.next_seq) (valid h (omega arith)),
          ap (answer s) (lookup-opened h h e es ∙ if_same h (some e) (lookup h es)),
          λ j n.
              ap (answer s) (lookup-opened h j e es ∙ if_other h j (some e) (lookup j es) n)
              ∙ answer-recount s reg.next_seq (lookup j es),
          λ j l.
              lookup-opened h j e es
              ∙ if_other h j (some e) (lookup j es) (later j l)
              ∙ valid j (below j l),
          ap (answer s) (lookup-closed h h e es ∙ if_same h none (lookup h es)),
          λ j n.
              ap (answer s) (lookup-closed h j e es ∙ if_other h j none (lookup j es) n)
              ∙ answer-recount s reg.next_seq (lookup j es),
          λ j l.
              lookup-closed h j e es
              ∙ if_other h j none (lookup j es) (later j l)
              ∙ valid j (below j l),
        )
      where
        below : (j : ℕ) → (reg.next_handle + 1) % u64_mod ≤ j → reg.next_handle ≤ j
        below j l = omega (arith, l, small)

        later : (j : ℕ) → (reg.next_handle + 1) % u64_mod ≤ j → reg.next_handle ≢ j
        later j l q = absurd (omega (arith, l, small, q))
