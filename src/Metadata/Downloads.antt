-- ===== src/Metadata/Downloads.antt =====
-- internal/metadata/upload.go: the placements that `PlanDownload` picks and the size of its plan.
use distributed_storage_plat.Common.{
  ℕ, suc, ◌+◌, min, ◌≤◌, ◌≡◌, refl, sym, ap, subst, ◌∙◌, Bool, true, false, List, [], ◌∷◌, length,
  length-append, ltb, leb, leb→le, All, All-append, Bool-cases, inl, inr, arith, Result, ok,
  err_ne_ok, ok-injective, lift, pure, ◌>>=◌, ◌>>◌, if◌then◌else◌,
}
use distributed_storage_plat.Common.Int.{ℤ}
use distributed_storage_plat.Common.Database.{Session, then-ok}
use distributed_storage_plat.Health.Rows.{online, same_status}
use distributed_storage_plat.Tickets.Wire.{Base64, Ed25519}
use distributed_storage_plat.Uploads.Rows.{StoreError, File, FileVersion, Tables, count}
use distributed_storage_plat.Uploads.Planned.{Run}
use distributed_storage_plat.Uploads.Download.{DownloadPlacement, DownloadChunk, load_download}
use distributed_storage_plat.Metadata.Download.{
  max_plan_fragments, DownloadFragment, PlannedChunk, DownloadResult, is_barred, online_placements,
  rest_placements, pick_download_placements, shards_needed, record_ticket, planned_fragment,
  planned_chunk, plan_fragments, plan_chunks, plan_loaded, plan_download,
}

Allowed : DownloadPlacement → Type 0
Allowed p = is_barred p.node ≡ false

unfoldable pub allowed : DownloadPlacement → Bool
allowed p = if is_barred p.node then false else true

online-Allowed : (ps : List DownloadPlacement) → All Allowed (online_placements ps)
unfolding online_placements Allowed
online-Allowed [] = tt
online-Allowed (p ∷ ps) = elim (Bool-cases (is_barred p.node)) [
  | inl bad ↦ rw bad (online-Allowed ps)
  | inr good ↦ elim (Bool-cases (same_status p.node.status online)) [
    | inl here ↦ rw (good, here) (good, online-Allowed ps)
    | inr other ↦ rw (good, other) (online-Allowed ps)
  ]
]

rest-Allowed : (ps : List DownloadPlacement) → All Allowed (rest_placements ps)
unfolding rest_placements Allowed
rest-Allowed [] = tt
rest-Allowed (p ∷ ps) = elim (Bool-cases (is_barred p.node)) [
  | inl bad ↦ rw bad (rest-Allowed ps)
  | inr good ↦ elim (Bool-cases (same_status p.node.status online)) [
    | inl here ↦ rw (good, here) (rest-Allowed ps)
    | inr other ↦ rw (good, other) (good, rest-Allowed ps)
  ]
]

-- The two lists part the allowed placements.
parted :
    (ps : List DownloadPlacement)
    → length (online_placements ps) + length (rest_placements ps) ≡ count allowed ps
unfolding online_placements rest_placements count allowed
parted [] = refl
parted (p ∷ ps) = elim (Bool-cases (is_barred p.node)) [
  | inl bad ↦ rw bad (parted ps)
  | inr good ↦ elim (Bool-cases (same_status p.node.status online)) [
    | inl here ↦ rw (good, here) (omega (arith, parted ps))
    | inr other ↦ rw (good, other) (omega (arith, parted ps))
  ]
]

-- The placements picked for a chunk are never on a revoked or quarantined node, however few there
-- are, and they are at least as many as needed, or as the chunk has on other nodes if that is
-- fewer.
pub pick_download_placements-enough :
    (ps : List DownloadPlacement) (need : ℕ)
    → All (λ (p : DownloadPlacement). is_barred p.node ≡ false) (pick_download_placements ps need)
      × (min need (count allowed ps) ≤ length (pick_download_placements ps need))
unfolding pick_download_placements Allowed
pick_download_placements-enough ps need =
    elim (Bool-cases (leb need (length (online_placements ps)))) [
      | inl enough ↦
          let fits = leb→le need (length (online_placements ps)) enough in
          rw enough (online-Allowed ps, omega arith)
      | inr few ↦
          let all = length-append (online_placements ps) (rest_placements ps) in
          let parts = parted ps in
          rw few (
            All-append Allowed (online_placements ps) (rest_placements ps) (online-Allowed ps)
                (rest-Allowed ps),
            omega arith,
          )
    ]

-- The fragments of a plan.
unfoldable pub fragments_in : List PlannedChunk → ℕ
fragments_in [] = 0
fragments_in (c ∷ cs) = length c.fragments + fragments_in cs

module _ (ed : Ed25519) (b64 : Base64)
    (sign_ticket : ℕ → ℕ → ℕ → List ℕ → ℤ → Result StoreError (List ℕ × ℕ)) where
  plan_fragments-ok :
      (f total : ℕ) (ps : List DownloadPlacement) (s : Session Tables) {frs : List DownloadFragment}
      → total ≤ max_plan_fragments
      → (plan_fragments ed b64 sign_ticket f total ps s).0 ≡ ok frs
      → (length frs ≡ length ps) × (total + length ps ≤ max_plan_fragments)
  unfolding plan_fragments
  plan_fragments-ok f total [] s b h = (ap length (sym (ok-injective h)), omega arith)
  plan_fragments-ok f total (p ∷ ps) s b h = elim (Bool-cases (leb max_plan_fragments total)) [
    | inl full ↦ absurd (err_ne_ok (sym (rw full at h)))
    | inr room ↦
        let rest : Run (List DownloadFragment) =
          plan_fragments ed b64 sign_ticket f (total + 1) ps in
        let finish : List ℕ × ℕ → Run (List DownloadFragment) =
          λ signed. rest >>= λ frs. pure (planned_fragment p signed.0 ∷ frs) in
        let (signed, got, h1, e1) =
          then-ok
            (lift
              (sign_ticket total p.fragment.id p.node.id p.fragment.sha256 p.fragment.size_bytes))
            (λ signed. record_ticket ed b64 sign_ticket f p signed >> finish signed) s
            (rw room at h) in
        let (u, recorded, h2, e2) =
          then-ok (record_ticket ed b64 sign_ticket f p signed) (λ _. finish signed) s h1 in
        let s2 = (record_ticket ed b64 sign_ticket f p signed s).1 in
        let (frs, planned, h3, e3) =
          then-ok rest (λ frs. pure (planned_fragment p signed.0 ∷ frs)) s2 h2 in
        let (same, bound) = plan_fragments-ok f (total + 1) ps s2 (ground arith) planned in
        (ap length (sym (ok-injective h3)) ∙ ap suc same, omega arith)
  ]

  plan_chunks-ok :
      (f need total : ℕ) (chs : List DownloadChunk) (s : Session Tables) {out : List PlannedChunk}
      → total ≤ max_plan_fragments
      → (plan_chunks ed b64 sign_ticket f need total chs s).0 ≡ ok out
      → All (λ (c : PlannedChunk). need ≤ length c.fragments) out
        × (total + fragments_in out ≤ max_plan_fragments)
  unfolding plan_chunks fragments_in planned_chunk
  plan_chunks-ok f need total [] s b h =
      subst
        (λ (o : List PlannedChunk).
          All (λ (c : PlannedChunk). need ≤ length c.fragments) o
          × (total + fragments_in o ≤ max_plan_fragments))
        (ok-injective h) (tt, omega arith)
  plan_chunks-ok f need total (ch ∷ chs) s b h =
      let picked : List DownloadPlacement = pick_download_placements ch.placements need in
      let rest : Run (List PlannedChunk) =
        plan_chunks ed b64 sign_ticket f need (total + length picked) chs in
      elim (Bool-cases (ltb (length picked) need)) [
        | inl few ↦ absurd (err_ne_ok (sym (rw few at h)))
        | inr enough ↦
            let (frs, planned, h1, e1) =
              then-ok (plan_fragments ed b64 sign_ticket f total picked)
                (λ frs. rest >>= λ out. pure (planned_chunk ch.chunk frs ∷ out)) s
                (rw enough at h) in
            let s1 = (plan_fragments ed b64 sign_ticket f total picked s).1 in
            let (more, planned', h2, e2) =
              then-ok rest (λ out. pure (planned_chunk ch.chunk frs ∷ out)) s1 h1 in
            let (same, bound) = plan_fragments-ok f total picked s b planned in
            let (all, bound') =
              plan_chunks-ok f need (total + length picked) chs s1 bound planned' in
            subst
              (λ (o : List PlannedChunk).
                All (λ (c : PlannedChunk). need ≤ length c.fragments) o
                × (total + fragments_in o ≤ max_plan_fragments))
              (ok-injective h2) ((ground arith, all), omega arith)
      ]

  -- When `PlanDownload` returns a plan for a file that loads, each chunk of the plan has at least
  -- as many entries as the version has data shards (10, where it has no positive number), and the
  -- plan has at most 10,000 entries. An entry is a stored placement, so a shard that is stored on
  -- two nodes has two.
  pub plan_download-bounds :
      (owner i : ℕ) (s : Session Tables) {f : File} {v : FileVersion} {chs : List DownloadChunk}
      {out : DownloadResult}
      → (load_download owner i s).0 ≡ ok (f, v, chs)
      → (plan_download ed b64 sign_ticket owner i s).0 ≡ ok out
      → All (λ (c : PlannedChunk). shards_needed v ≤ length c.fragments) out.chunks
        × (fragments_in out.chunks ≤ max_plan_fragments)
  unfolding plan_download plan_loaded
  plan_download-bounds owner i s {f} {v} {chs} {out} loaded h =
      let (g, read, h1, e1) =
        then-ok (load_download owner i) (plan_loaded ed b64 sign_ticket) s h in
      let same : g ≡ (f, v, chs) = ok-injective (sym read ∙ loaded) in
      let s1 = (load_download owner i s).1 in
      let ran = ap (λ x. (plan_loaded ed b64 sign_ticket x s1).0) (sym same) ∙ h1 in
      let (cs, planned, h2, e2) =
        then-ok (plan_chunks ed b64 sign_ticket f.id (shards_needed v) 0 chs)
          (λ cs. pure (record {
            file_id = f.id;
            version_no = v.version_no;
            size_bytes = v.size_bytes;
            content_sha256 = v.content_sha256;
            encryption_meta = v.encryption_meta;
            chunks = cs;
          }))
          s1 ran in
      let (all, bound) = plan_chunks-ok f.id (shards_needed v) 0 chs s1 (ground arith) planned in
      subst
        (λ (o : DownloadResult).
          All (λ (c : PlannedChunk). shards_needed v ≤ length c.fragments) o.chunks
          × (fragments_in o.chunks ≤ max_plan_fragments))
        (ok-injective h2) (all, omega arith)
