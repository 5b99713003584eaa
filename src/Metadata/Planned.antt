-- ===== src/Metadata/Planned.antt =====
-- internal/metadata/upload.go: what a plan of `PlanUpload` covers.
use distributed_storage_plat.Common.{
  ℕ, ◌+◌, ◌≤◌, ◌≡◌, refl, sym, ap, subst, ◌∙◌, Bool, true, false, ◌&&◌, Option, none, List, [], ◌∷◌,
  ◌++◌, length, ◌==◌, ltb, Bool-cases, Option-cases, inl, inr, ◌⊎◌, arith, Result, ok, err,
  err_ne_ok, ok-injective, lift, ◌>>=◌,
}
use distributed_storage_plat.Common.Int.{ℤ}
use distributed_storage_plat.Common.Database.{Session, then-ok}
use distributed_storage_plat.Uploads.Rows.{StoreError, Node, Tables, count, exists_row}
use distributed_storage_plat.Uploads.Planned.{UploadManifest, PlannedFragment, PlannedUpload, Run}
use distributed_storage_plat.Uploads.Begin.{begin_upload}
use distributed_storage_plat.Uploads.Commit.{commit_threshold}
use distributed_storage_plat.Metadata.Download.{max_plan_fragments}
use distributed_storage_plat.Metadata.Plan.{
  PlaceNeed, PlaceAssign, PlannedPlacement, PlanResult, needs_of, node_for, assigned, add_placed,
  is_placed, per_chunk, any_short, planned_placement, put_tickets, finish_plan, place_needs,
  plan_body, or_abort, plan_upload,
}
use mathlib.Core.List.{Memᴰ}

-- The plan has a ticket for the fragment of the row.
unfoldable pub has_ticket : List PlannedPlacement → PlannedFragment → Bool
has_ticket out pf = exists_row (λ (p : PlannedPlacement). p.fragment_id == pf.fragment.id) out

none_short :
    (by : List (ℕ × Node)) (planned : PlannedUpload) (pfs : List PlannedFragment)
    {pf : PlannedFragment}
    → any_short by planned pfs ≡ false
    → Memᴰ pf pfs
    → commit_threshold ≤ per_chunk by planned pf.chunk.id
unfolding any_short
none_short by planned [] h m = elim m [ ]
none_short by planned (x ∷ pfs) h (Memᴰ.head e) =
    elim (Bool-cases (ltb (per_chunk by planned x.chunk.id) commit_threshold)) [
      | inl few ↦ (let k = rw few at h in absurd (cc))
      | inr many ↦
          let enough : commit_threshold ≤ per_chunk by planned x.chunk.id = ground arith in
          subst (λ (y : PlannedFragment). commit_threshold ≤ per_chunk by planned y.chunk.id)
            (sym e) enough
    ]
none_short by planned (x ∷ pfs) h (Memᴰ.tail m) =
    elim (Bool-cases (ltb (per_chunk by planned x.chunk.id) commit_threshold)) [
      | inl few ↦ (let k = rw few at h in absurd (cc))
      | inr many ↦ none_short by planned pfs (rw many at h) m
    ]

count_mono :
    {A : Type 0} (p q : A → Bool) (xs : List A)
    → ((x : A) → Memᴰ x xs → p x ≡ true → q x ≡ true)
    → count p xs ≤ count q xs
unfolding count
count_mono p q [] k = omega arith
count_mono p q (x ∷ xs) k =
    let rest = count_mono p q xs (λ y m. k y (Memᴰ.tail m)) in
    elim (Bool-cases (p x)) [
      | inl hit ↦ rw (hit, k x (Memᴰ.head refl) hit) (omega arith)
      | inr miss ↦ elim (Bool-cases (q x)) [
        | inl more ↦ rw (miss, more) (omega arith)
        | inr same ↦ rw (miss, same) rest
      ]
    ]

and_map : (a b c : Bool) → (b ≡ true → c ≡ true) → (a && b) ≡ true → (a && c) ≡ true
and_map true b c f h = f h
and_map false b c f h = h

Result-cases : {E A : Type 0} (r : Result E A) → ((e : E) × (r ≡ err e)) ⊎ ((a : A) × (r ≡ ok a))
Result-cases (ok a) = inr (a, refl)
Result-cases (err e) = inl (e, refl)

not_head :
    (by : List (ℕ × Node)) (x : PlannedFragment) (pfs : List PlannedFragment) (pf : PlannedFragment)
    → node_for by x.fragment.id ≡ none
    → Memᴰ pf (x ∷ pfs)
    → is_placed by pf ≡ true
    → Memᴰ pf pfs
unfolding is_placed
not_head by x pfs pf h (Memᴰ.head e) k = (let j = rw (is_placed, e, h) at k in absurd (cc))
not_head by x pfs pf h (Memᴰ.tail m) k = m

in_head_or_tail :
    (x : PlannedFragment) (n : Node) (wire : List ℕ) (rest : List PlannedPlacement)
    (pf : PlannedFragment) {pfs : List PlannedFragment}
    → Memᴰ pf (x ∷ pfs)
    → (Memᴰ pf pfs → has_ticket rest pf ≡ true)
    → has_ticket (planned_placement x n wire ∷ rest) pf ≡ true
unfolding has_ticket exists_row planned_placement
in_head_or_tail x n wire rest pf (Memᴰ.head e) k =
    let here : (x.fragment.id == pf.fragment.id) ≡ true =
      subst (λ (y : PlannedFragment). (x.fragment.id == y.fragment.id) ≡ true) (sym e)
        (ground arith) in
    rw here refl
in_head_or_tail x n wire rest pf (Memᴰ.tail m) k =
    elim (Bool-cases (x.fragment.id == pf.fragment.id)) [
      | inl here ↦ rw here refl
      | inr there ↦ rw there (k m)
    ]

module _ (sign_ticket : ℕ → ℕ → ℕ → List ℕ → ℤ → Result StoreError (List ℕ × ℕ)) where
  -- Every placed row gets a ticket.
  put_tickets-all :
      (n : ℕ) (by : List (ℕ × Node)) (pfs : List PlannedFragment)
      {out : List PlannedPlacement × Option ℕ} (pf : PlannedFragment)
      → put_tickets sign_ticket n by pfs ≡ ok out
      → Memᴰ pf pfs
      → is_placed by pf ≡ true
      → has_ticket out.0 pf ≡ true
  unfolding put_tickets
  put_tickets-all n by [] pf h m k = elim m [ ]
  put_tickets-all n by (x ∷ pfs) pf h m k = elim (Option-cases (node_for by x.fragment.id)) [
    | inl missing ↦
        put_tickets-all n by pfs pf (rw (put_tickets, missing) at h)
          (not_head by x pfs pf missing m k) k
    | inr (node, found) ↦
        elim (Result-cases
          (sign_ticket n x.fragment.id node.id x.fragment.sha256 x.fragment.size_bytes)) [
            | inl (e, failed) ↦ absurd (err_ne_ok (sym (rw (put_tickets, found, failed) at h)))
            | inr ((wire, expires), signed) ↦
                elim (Result-cases (put_tickets sign_ticket (n + 1) by pfs)) [
                  | inl (e, failed) ↦
                      absurd (err_ne_ok (sym (rw (put_tickets, found, signed, failed) at h)))
                  | inr ((rest, first), done) ↦
                      let made = ok-injective (rw (put_tickets, found, signed, done) at h) in
                      subst (λ (q : List PlannedPlacement × Option ℕ). has_ticket q.0 pf ≡ true)
                        made
                        (in_head_or_tail x node wire rest pf m
                          (λ t. put_tickets-all (n + 1) by pfs pf done t k))
                ]
          ]
  ]

  finish_plan-covers :
      (planned : PlannedUpload) (by : List (ℕ × Node)) (s : Session Tables) {out : PlanResult}
      (pf : PlannedFragment)
      → (finish_plan sign_ticket planned by s).0 ≡ ok out
      → Memᴰ pf (planned.stored_rows ++ planned.pending_rows)
      → (commit_threshold
          ≤ count (λ (x : PlannedFragment). x.chunk.id == pf.chunk.id) planned.stored_rows
            + count
                (λ (x : PlannedFragment). x.chunk.id == pf.chunk.id && has_ticket out.placements x)
                planned.pending_rows)
        × (length out.placements ≤ max_plan_fragments)
  unfolding finish_plan per_chunk
  finish_plan-covers planned by s {out} pf h mem =
      let rows = planned.stored_rows ++ planned.pending_rows in
      elim (Bool-cases (any_short by planned rows)) [
        | inl short ↦ absurd (err_ne_ok (sym (rw (finish_plan, short) at h)))
        | inr whole ↦ elim (Result-cases (put_tickets sign_ticket 0 by planned.pending_rows)) [
          | inl (e, failed) ↦ absurd (err_ne_ok (sym (rw (finish_plan, whole, failed) at h)))
          | inr ((tickets, first), made) ↦
              elim (Bool-cases (ltb max_plan_fragments (length tickets))) [
                | inl long ↦ absurd (err_ne_ok (sym (rw (finish_plan, whole, made, long) at h)))
                | inr bounded ↦
                    let result = ok-injective (rw (finish_plan, whole, made, bounded) at h) in
                    let enough = none_short by planned rows whole mem in
                    let more =
                      count_mono
                        (λ (x : PlannedFragment). x.chunk.id == pf.chunk.id && is_placed by x)
                        (λ (x : PlannedFragment). x.chunk.id == pf.chunk.id && has_ticket tickets x)
                        planned.pending_rows
                        (λ x m.
                          and_map (x.chunk.id == pf.chunk.id) (is_placed by x)
                            (has_ticket tickets x)
                            (put_tickets-all 0 by planned.pending_rows x made m)) in
                    subst
                      (λ (r : PlanResult).
                        (commit_threshold
                          ≤ count (λ (x : PlannedFragment). x.chunk.id == pf.chunk.id)
                              planned.stored_rows
                            + count
                                (λ (x : PlannedFragment).
                                  x.chunk.id == pf.chunk.id && has_ticket r.placements x)
                                planned.pending_rows)
                        × (length r.placements ≤ max_plan_fragments))
                      result (omega arith, ground arith)
              ]
        ]
      ]

  module _ (place : List PlaceNeed → Option (List PlaceAssign)) where
    or_abort-ok :
        (planned : PlannedUpload) (s : Session Tables) {out : PlanResult}
        → (or_abort sign_ticket place planned s).0 ≡ ok out
        → (plan_body sign_ticket place planned s).0 ≡ ok out
    unfolding or_abort
    or_abort-ok planned s h = elim (Result-cases (plan_body sign_ticket place planned s).0) [
      | inr (made, done) ↦ done ∙ (rw (or_abort, done) at h)
      | inl (e, failed) ↦ elim (Bool-cases planned.resume) [
        | inl resumed ↦ absurd (err_ne_ok (sym (rw (or_abort, failed, resumed) at h)))
        | inr new ↦ absurd (err_ne_ok (sym (rw (or_abort, failed, new) at h)))
      ]
    ]

    plan_body-ok :
        (planned : PlannedUpload) (s : Session Tables) {out : PlanResult}
        → (plan_body sign_ticket place planned s).0 ≡ ok out
        → (by : List (ℕ × Node)) × (t : Session Tables) × ((finish_plan sign_ticket planned by t).0
            ≡ ok out)
    unfolding plan_body
    plan_body-ok planned s h =
        let needs = needs_of planned.pending_rows in
        let (assigns, placed, h1, e1) =
          then-ok (place_needs sign_ticket place needs)
            (λ as'.
              add_placed (assigned [] as') planned.pending_rows >>= finish_plan sign_ticket planned)
            s h in
        let s1 = (place_needs sign_ticket place needs s).1 in
        let (by, read, h2, e2) =
          then-ok (add_placed (assigned [] assigns) planned.pending_rows)
            (finish_plan sign_ticket planned) s1 h1 in
        (by, (add_placed (assigned [] assigns) planned.pending_rows s1).1, h2)

    -- When `PlanUpload` returns a plan for an upload that begins, each chunk that the upload has a
    -- row for has at least 14 rows that are stored or have a ticket of the plan, and the plan has at
    -- most 10,000 tickets. A row is a fragment with one of its live placements or with none, so a
    -- fragment with two live placements has two rows.
    pub plan_upload-covers :
        (fresh : List ℕ → ℕ) (trim_space clean : List ℕ → List ℕ)
        (quota : Result StoreError (Unit {0})) (owner : ℕ) (m : UploadManifest) (s : Session Tables)
        {planned : PlannedUpload} {out : PlanResult} (pf : PlannedFragment)
        → (begin_upload fresh trim_space clean owner m s).0 ≡ ok planned
        → (plan_upload sign_ticket place fresh trim_space clean quota owner m s).0 ≡ ok out
        → Memᴰ pf (planned.stored_rows ++ planned.pending_rows)
        → (commit_threshold
            ≤ count (λ (x : PlannedFragment). x.chunk.id == pf.chunk.id) planned.stored_rows
              + count
                  (λ (x : PlannedFragment).
                    x.chunk.id == pf.chunk.id && has_ticket out.placements x)
                  planned.pending_rows)
          × (length out.placements ≤ max_plan_fragments)
    unfolding plan_upload
    plan_upload-covers fresh trim_space clean quota owner m s {planned} {out} pf begun h mem =
        let begin : Run PlannedUpload = begin_upload fresh trim_space clean owner m in
        let (u, allowed, h1, e1) =
          then-ok (lift quota) (λ _. begin >>= or_abort sign_ticket place) s h in
        let (p, read, h2, e2) = then-ok begin (or_abort sign_ticket place) s h1 in
        let same : p ≡ planned = ok-injective (sym read ∙ begun) in
        let ran = ap (λ x. (or_abort sign_ticket place x (begin s).1).0) (sym same) ∙ h2 in
        let (by, t, finished) =
          plan_body-ok planned (begin s).1 (or_abort-ok planned (begin s).1 ran) in
        finish_plan-covers planned by t pf finished mem
