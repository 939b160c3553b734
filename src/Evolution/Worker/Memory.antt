-- ===== src/Evolution/Worker/Memory.antt =====
-- What the worker remembers (remember and cleanupProcessed of internal/policy/evolution/worker.go).
use pads_v.Common.{
  ℕ, zero, suc, ◌+◌, ◌-◌, ◌≤◌, ◌<◌, ◌≡◌, refl, sym, ap, subst, ◌∙◌, String, Bool, true, false, none,
  some, List, [], ◌∷◌, ◌++◌, arith, if◌then◌else◌, leb, length, length-append, length-drop, take,
  drop, take-append-drop, ◌==◌, eq_iff, inl, inr, Bool-cases,
}
use pads_v.Common.Count.{count, Has, IsUnique, count-append, ==_self}
use pads_v.Common.Table.{Table, lookup, insert, delete, lookup-insert, lookup-delete}
use pads_v.Evolution.Worker.{
  Worker, cleanup_threshold, max_retention, delete_ids, is_processed, cleanup_processed, remember,
}

delete_ids-missing :
    (ids : List String) (m : Table Bool) (j : String)
    → count j ids ≡ 0
    → lookup j (delete_ids ids m) ≡ lookup j m
delete_ids-missing [] m j h = refl
delete_ids-missing (id ∷ ids) m j h =
    ground (arith, delete_ids-missing ids (delete id m) j (omega arith), lookup-delete id j m)

delete_ids-none :
    (ids : List String) (m : Table Bool) (j : String)
    → lookup j m ≡ none
    → lookup j (delete_ids ids m) ≡ none
delete_ids-none [] m j h = h
delete_ids-none (id ∷ ids) m j h =
    delete_ids-none ids (delete id m) j (ground (arith, lookup-delete id j m))

delete_ids-Has :
    (ids : List String) (m : Table Bool) (j : String)
    → Has ids j
    → lookup j (delete_ids ids m) ≡ none
delete_ids-Has [] m j h = absurd (omega arith)
delete_ids-Has (id ∷ ids) m j h = elim (Bool-cases (id == j)) [
  | inl e ↦ delete_ids-none ids (delete id m) j (ground (arith, lookup-delete id j m))
  | inr e ↦ delete_ids-Has ids (delete id m) j (ground arith)
]

-- The map holds the identifiers of the list, each of which stands there once.
abbrev pub Lists : Table Bool → List String → Type 0
Lists m ids =
    ((id : String) → lookup id m ≡ (if leb 1 (count id ids) then some true else none))
    × IsUnique ids

insert-Lists :
    (m : Table Bool) (ids : List String) (id : String)
    → count id ids ≡ 0
    → Lists m ids
    → Lists (insert id true m) (ids ++ id ∷ [])
insert-Lists m ids id new h = (
  λ j. ground (arith, eq_iff id j, h.0 j, lookup-insert id j true m, count-append j ids (id ∷ [])),
  λ j. ground (arith, eq_iff id j, h.1 j, count-append j ids (id ∷ [])),
)

drop-Lists :
    (n : ℕ) (m : Table Bool) (ids : List String)
    → Lists m ids
    → Lists (delete_ids (take n ids) m) (drop n ids)
drop-Lists n m ids h = (
  λ j. elim (Bool-cases (leb 1 (count j (take n ids)))) [
    | inl old ↦ ground (arith, parts j, h.1 j, delete_ids-Has (take n ids) m j (ground arith))
    | inr kept ↦ ground (arith, parts j, h.0 j, delete_ids-missing (take n ids) m j (ground arith))
  ],
  λ j. omega (arith, parts j, h.1 j),
)
  where
    parts : (j : String) → count j ids ≡ count j (take n ids) + count j (drop n ids)
    parts j = ap (count j) (sym (take-append-drop n ids)) ∙ count-append j (take n ids) (drop n ids)

-- The map and the list agree, and both stay small.
pub record IsTracked {S : Type 0} (w : Worker S) : Type 0 where
  pub listed : Lists w.processed w.processed_ord
  pub small : length w.processed_ord ≤ max_retention + w.processed_cnt
  pub counted : w.processed_cnt < cleanup_threshold

cleanup-Lists :
    {S : Type 0} (w : Worker S)
    → Lists w.processed w.processed_ord
    → Lists (cleanup_processed w).processed (cleanup_processed w).processed_ord
      × (length (cleanup_processed w).processed_ord ≤ max_retention)
unfolding cleanup_processed
cleanup-Lists w h = elim (Bool-cases (leb (length w.processed_ord) max_retention)) [
  | inl few ↦ rw few (h, ground arith)
  | inr many ↦ rw many (
    drop-Lists (length w.processed_ord - max_retention) w.processed w.processed_ord h,
    omega (arith, length-drop (length w.processed_ord - max_retention) w.processed_ord),
  )
]

pub is_processed-count :
    {S : Type 0} (w : Worker S) (id : String)
    → Lists w.processed w.processed_ord
    → is_processed w id ≡ leb 1 (count id w.processed_ord)
unfolding is_processed
is_processed-count w id h = ground (arith, h.0 id)

abbrev noted : {S : Type 0} → Worker S → String → Worker S
noted w id = record w {
  processed = insert id true w.processed;
  processed_ord = w.processed_ord ++ id ∷ [];
  processed_cnt = w.processed_cnt + 1;
}

remember-few :
    {S : Type 0} (w : Worker S) (id : String)
    → leb cleanup_threshold (w.processed_cnt + 1) ≡ false
    → remember w id ≡ noted w id
unfolding remember
remember-few w id h = rw h refl

remember-many :
    {S : Type 0} (w : Worker S) (id : String)
    → leb cleanup_threshold (w.processed_cnt + 1) ≡ true
    → remember w id ≡ record (cleanup_processed (noted w id)) { processed_cnt = 0 }
unfolding remember
remember-many w id h = rw h refl

pub remember-IsTracked :
    {S : Type 0} (w : Worker S) (id : String)
    → IsTracked w
    → is_processed w id ≡ false
    → IsTracked (remember w id)
remember-IsTracked w id t fresh =
    let seen = is_processed-count w id t.listed in
    let new : count id w.processed_ord ≡ 0 = ground arith in
    let listed = insert-Lists w.processed w.processed_ord id new t.listed in
    elim (Bool-cases (leb cleanup_threshold (w.processed_cnt + 1))) [
      | inr e ↦ subst IsTracked (sym (remember-few w id e)) (record {
        listed = listed;
        small = omega (arith, t.small, length-append w.processed_ord (id ∷ []));
        counted = ground arith;
      })
      | inl e ↦
          let (lists, few) = cleanup-Lists (noted w id) listed in
          subst IsTracked (sym (remember-many w id e))
            (record { listed = lists; small = omega arith; counted = omega arith })
    ]

last_kept :
    (n : ℕ) (ids : List String) (id : String) → n ≤ length ids → Has (drop n (ids ++ id ∷ [])) id
last_kept zero [] id h = ground (arith, ==_self id)
last_kept zero (x ∷ ids) id h = omega (arith, last_kept zero ids id (omega arith))
last_kept (suc n) [] id h = absurd (omega arith)
last_kept (suc n) (x ∷ ids) id h = last_kept n ids id (omega arith)

cleanup_kept :
    {S : Type 0} (w : Worker S) (id : String)
    → Has (cleanup_processed (noted w id)).processed_ord id
unfolding cleanup_processed
cleanup_kept w id = elim (Bool-cases (leb (length (w.processed_ord ++ id ∷ [])) max_retention)) [
  | inl few ↦ rw few (last_kept 0 w.processed_ord id (omega arith))
  | inr many ↦ rw many (
      last_kept (length (w.processed_ord ++ id ∷ []) - max_retention) w.processed_ord id
        (omega (arith, length-append w.processed_ord (id ∷ []))))
]

pub remember_kept : {S : Type 0} (w : Worker S) (id : String) → Has (remember w id).processed_ord id
remember_kept w id = elim (Bool-cases (leb cleanup_threshold (w.processed_cnt + 1))) [
  | inl e ↦ subst (λ v. Has v.processed_ord id) (sym (remember-many w id e)) (cleanup_kept w id)
  | inr e ↦
      subst (λ v. Has v.processed_ord id) (sym (remember-few w id e))
        (last_kept 0 w.processed_ord id (omega arith))
]
