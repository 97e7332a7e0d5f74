-- ===== src/Lsm/Engine/Overlay.antt =====
-- The loops of `scan_prefix` over the memtables, crates/lsm/src/engine.rs: what each layer puts over
-- the results so far.
use exepense_db.Base.{
  ℕ, ◌≤◌, ◌≡◌, refl, sym, ap, ◌∙◌, subst, true, false, Option, none, some, List, [], ◌∷◌, ◌++◌,
  Bool-cases, inl, inr, All, leb, le→leb, if◌then◌else◌, arith,
}
use mathlib.Core.List.{reverse, reverse-append}
use exepense_db.Base.Order.{Bytes, cmp_refl, same, same_refl, starts_with, eq_of_same}
use exepense_db.Base.BtreeMap
use exepense_db.Base.BtreeMap.{
  BtreeMap, IsSorted, Above, get-insert, get-remove, get-Above, insert-IsSorted, Above-trans,
}
use exepense_db.Memtable
use exepense_db.Memtable.{VersionedValue, value, tombstone, ImmutableMemTable, MemTable, seq}
use exepense_db.Lsm.Engine.{scan_value, scan_entries, scan_immutable}
use exepense_db.Lsm.Engine.Layers.{newest_of, or_else}
use exepense_db.Lsm.Engine.Crash.{live}

-- A version seen at `snap` stands in front of what is below it.
abbrev pub over : ℕ → Option VersionedValue → Option Bytes → Option Bytes
over snap none below = below
over snap (some (value d s)) below = if leb s snap then some d else below
over snap (some (tombstone s)) below = if leb s snap then none else below

Above-remove : (i k : Bytes) (m : BtreeMap Bytes) → Above i m → Above i (BtreeMap.remove k m)
unfolding BtreeMap.remove
Above-remove i k [] a = tt
Above-remove i k ((j, w) ∷ m) a = ground (arith, Above-remove i k m)

remove-IsSorted : (k : Bytes) (m : BtreeMap Bytes) → IsSorted m → IsSorted (BtreeMap.remove k m)
unfolding BtreeMap.remove
remove-IsSorted k [] s = tt
remove-IsSorted k ((j, w) ∷ m) s = ground (arith, remove-IsSorted k m, Above-remove j k m)

module _ (prefix : Bytes) (snap : ℕ) where
  abbrev step : Bytes → VersionedValue → BtreeMap Bytes → BtreeMap Bytes
  step j v results = if starts_with j prefix then scan_value j snap v results else results

  step-IsSorted :
      (j : Bytes) (v : VersionedValue) (results : BtreeMap Bytes)
      → IsSorted results
      → IsSorted (step j v results)
  step-IsSorted j (value d s) results h = ground (arith, insert-IsSorted j d results h)
  step-IsSorted j (tombstone s) results h = ground (arith, remove-IsSorted j results h)

  get-step :
      (j q : Bytes) (v : VersionedValue) (results : BtreeMap Bytes)
      → IsSorted results
      → BtreeMap.get q (step j v results) ≡ (
          if same q j
          then (if starts_with q prefix
              then over snap (some v) (BtreeMap.get q results)
              else BtreeMap.get q results)
          else BtreeMap.get q results)
  get-step j q (value d s) results h = elim (Bool-cases (same q j)) [
    | inl hit ↦
        rw (eq_of_same q j hit, same_refl j) (ground (arith, get-insert j j d results, cmp_refl j))
    | inr miss ↦ rw miss (ground (arith, get-insert j q d results))
  ]
  get-step j q (tombstone s) results h = elim (Bool-cases (same q j)) [
    | inl hit ↦
        rw (eq_of_same q j hit, same_refl j) (ground (arith, get-remove j j results h, cmp_refl j))
    | inr miss ↦ rw miss (ground (arith, get-remove j q results h))
  ]

  pub scan_entries-IsSorted :
      (m : BtreeMap VersionedValue) (results : BtreeMap Bytes)
      → IsSorted results
      → IsSorted (scan_entries prefix snap m results)
  unfolding scan_entries
  scan_entries-IsSorted [] results h = h
  scan_entries-IsSorted ((j, v) ∷ m) results h =
      scan_entries-IsSorted m (step j v results) (step-IsSorted j v results h)

  pub get-scan_entries :
      (m : BtreeMap VersionedValue) (results : BtreeMap Bytes) (q : Bytes)
      → IsSorted m
      → IsSorted results
      → BtreeMap.get q (scan_entries prefix snap m results) ≡ (
          if starts_with q prefix
          then over snap (BtreeMap.get q m) (BtreeMap.get q results)
          else BtreeMap.get q results)
  unfolding scan_entries BtreeMap.get
  get-scan_entries [] results q sm h = ground arith
  get-scan_entries ((j, v) ∷ m) results q (a, sm) h =
      get-scan_entries m (step j v results) q sm (step-IsSorted j v results h)
      ∙ elim (Bool-cases (same q j)) [
        | inl hit ↦ rw (get-step j q v results h, hit, gone q hit) (ground arith)
        | inr miss ↦ rw (get-step j q v results h, miss)
      ]
    where
      gone : (q : Bytes) → same q j ≡ true → BtreeMap.get q m ≡ none
      gone q hit = rw (eq_of_same q j hit) (get-Above j m a)

newest_of-append :
    (xs ys : List ImmutableMemTable) (q : Bytes)
    → newest_of (xs ++ ys) q ≡ or_else (newest_of xs q) (newest_of ys q)
unfolding newest_of
newest_of-append [] ys q = refl
newest_of-append (x ∷ xs) ys q = ground (arith, newest_of-append xs ys q)

newest_of_cons :
    (imm : ImmutableMemTable) (imms : List ImmutableMemTable) (q : Bytes)
    → newest_of (reverse (imm ∷ imms)) q
      ≡ or_else (newest_of (reverse imms) q) (BtreeMap.get q imm.entries)
unfolding newest_of
newest_of_cons imm imms q =
    ap (λ l. newest_of l q) (reverse-append (imm ∷ []) imms)
    ∙ newest_of-append (reverse imms) (imm ∷ []) q
    ∙ ground arith

-- The newest version of a key, where there is one, is seen at `snap`.
abbrev pub Seen : ℕ → Option VersionedValue → Type 0
Seen snap o = (w : VersionedValue) → o ≡ some w → seq w ≤ snap

abbrev pub AllSorted : List ImmutableMemTable → Type 0
AllSorted imms = All (λ imm. IsSorted imm.entries) imms

over_seen :
    (snap : ℕ) (o : Option VersionedValue) (w : VersionedValue) (b : Option Bytes)
    → o ≡ some w
    → seq w ≤ snap
    → over snap o b ≡ live (some w)
unfolding seq
over_seen snap o (value d s) b e h = rw (e, le→leb s snap h)
over_seen snap o (tombstone s) b e h = rw (e, le→leb s snap h)

-- What lies over `below` for a key: the live data of its newest version, if it has one.
abbrev pub covered : Option VersionedValue → Option Bytes → Option Bytes
covered none below = below
covered (some w) below = live (some w)

pub over-covered :
    (snap : ℕ) (o : Option VersionedValue) (b : Option Bytes)
    → Seen snap o
    → over snap o b ≡ covered o b
over-covered snap none b h = refl
over-covered snap (some w) b h = over_seen snap (some w) w b refl (h w refl)

covered-or_else :
    (o p : Option VersionedValue) (b : Option Bytes)
    → covered o (covered p b) ≡ covered (or_else o p) b
covered-or_else none p b = refl
covered-or_else (some w) p b = refl

layered :
    (snap : ℕ) (o p : Option VersionedValue) (b : Option Bytes)
    → Seen snap (or_else o p)
    → covered o (over snap p b) ≡ covered (or_else o p) b
layered snap none p b h = over-covered snap p b h
layered snap (some w) p b h = refl

module _ (prefix : Bytes) (snap : ℕ) where
  pub scan_immutable-IsSorted :
      (imms : List ImmutableMemTable) (results : BtreeMap Bytes)
      → IsSorted results
      → IsSorted (scan_immutable prefix snap imms results)
  unfolding scan_immutable
  scan_immutable-IsSorted [] results h = h
  scan_immutable-IsSorted (imm ∷ imms) results h =
      scan_immutable-IsSorted imms (scan_entries prefix snap (Memtable.iter imm) results)
        (scan_entries-IsSorted prefix snap (Memtable.iter imm) results h)

  pub get-scan_immutable :
      (imms : List ImmutableMemTable) (results : BtreeMap Bytes) (q : Bytes)
      → AllSorted imms
      → IsSorted results
      → Seen snap (newest_of (reverse imms) q)
      → starts_with q prefix ≡ true
      → BtreeMap.get q (scan_immutable prefix snap imms results)
        ≡ covered (newest_of (reverse imms) q) (BtreeMap.get q results)
  unfolding scan_immutable newest_of Memtable.iter
  get-scan_immutable [] results q s h seen p = refl
  get-scan_immutable (imm ∷ imms) results q (si, s) h seen p =
      let cons = newest_of_cons imm imms q in
      let seen' = subst (Seen snap) cons seen in
      get-scan_immutable imms (scan_entries prefix snap (Memtable.iter imm) results) q s
        (scan_entries-IsSorted prefix snap (Memtable.iter imm) results h)
        (seen_front (newest_of (reverse imms) q) (BtreeMap.get q imm.entries) seen') p
      ∙ ap (covered (newest_of (reverse imms) q))
          (get-scan_entries prefix snap imm.entries results q si h ∙ rw p)
      ∙ layered snap (newest_of (reverse imms) q) (BtreeMap.get q imm.entries)
          (BtreeMap.get q results) seen'
      ∙ ap (λ o. covered o (BtreeMap.get q results)) (sym cons)
    where
      seen_front : (o p : Option VersionedValue) → Seen snap (or_else o p) → Seen snap o
      seen_front none p h w e = cc
      seen_front (some v) p h w e = h w e

  pub outside_immutable :
      (imms : List ImmutableMemTable) (results : BtreeMap Bytes) (q : Bytes)
      → AllSorted imms
      → IsSorted results
      → starts_with q prefix ≡ false
      → BtreeMap.get q (scan_immutable prefix snap imms results) ≡ BtreeMap.get q results
  unfolding scan_immutable Memtable.iter
  outside_immutable [] results q s h p = refl
  outside_immutable (imm ∷ imms) results q (si, s) h p =
      outside_immutable imms (scan_entries prefix snap (Memtable.iter imm) results) q s
        (scan_entries-IsSorted prefix snap (Memtable.iter imm) results h) p
      ∙ get-scan_entries prefix snap imm.entries results q si h
      ∙ rw p
