-- ===== src/Metadata/Download.antt =====
-- internal/metadata/upload.go: `PlanDownload`.
-- `sign_ticket` is the signing of the n-th ticket of a call: its wire form and its expiry.
use distributed_storage_plat.Common.{
  ℕ, ◌+◌, Bool, true, false, ◌||◌, none, some, List, [], ◌∷◌, ◌++◌, length, ltb, leb, if◌then◌else◌,
  Result, ok, err, pure, raise, lift, ◌>>=◌, ◌>>◌,
}
use distributed_storage_plat.Common.Int.{ℤ, pos, pos_part, leb_ℤ}
use distributed_storage_plat.Health.Rows.{online, quarantined, same_status}
use distributed_storage_plat.Tickets.Wire.{Base64, Ed25519}
use distributed_storage_plat.Tickets.Sign.{decode_unverified}
use distributed_storage_plat.Uploads.Rows.{
  StoreError, invalid, unavailable, File, FileVersion, Chunk, Node,
}
use distributed_storage_plat.Uploads.Planned.{Run}
use distributed_storage_plat.Uploads.Download.{
  DownloadPlacement, DownloadChunk, load_download, insert_download_ticket,
}

abbrev pub max_plan_fragments : ℕ
max_plan_fragments = 10000

pub record DownloadFragment : Type 0 where
  pub shard_index : ℤ
  pub fragment_id : ℕ
  pub sha256 : List ℕ
  pub size_bytes : ℤ
  pub node_id : ℕ
  pub endpoint : List ℕ
  pub ticket : List ℕ

pub record PlannedChunk : Type 0 where
  pub seq : ℤ
  pub sha256 : List ℕ
  pub size_bytes : ℤ
  pub fragments : List DownloadFragment

pub record DownloadResult : Type 0 where
  pub file_id : ℕ
  pub version_no : ℕ
  pub size_bytes : ℤ
  pub content_sha256 : List ℕ
  pub encryption_meta : List ℕ
  pub chunks : List PlannedChunk

-- `p.Node.RevokedAt != nil || p.Node.Status == "quarantined"`
unfoldable pub is_barred : Node → Bool
is_barred n =
    let revoked : Bool = elim n.revoked_at [ none ↦ false | some _ ↦ true ] in
    revoked || same_status n.status quarantined

unfoldable pub online_placements : List DownloadPlacement → List DownloadPlacement
online_placements [] = []
online_placements (p ∷ ps) =
    let rest = online_placements ps in
    if is_barred p.node then rest else if same_status p.node.status online then p ∷ rest else rest

unfoldable pub rest_placements : List DownloadPlacement → List DownloadPlacement
rest_placements [] = []
rest_placements (p ∷ ps) =
    let rest = rest_placements ps in
    if is_barred p.node then rest else if same_status p.node.status online then rest else p ∷ rest

unfoldable pub pick_download_placements : List DownloadPlacement → ℕ → List DownloadPlacement
pick_download_placements all need =
    if leb need (length (online_placements all))
    then online_placements all
    else online_placements all ++ rest_placements all

-- `need := int(v.ECDataShards); if need <= 0 { need = 10 }`
unfoldable pub shards_needed : FileVersion → ℕ
shards_needed v = if leb_ℤ v.ec_data (pos 0) then 10 else pos_part v.ec_data

unfoldable pub planned_fragment : DownloadPlacement → List ℕ → DownloadFragment
planned_fragment p wire = record {
  shard_index = p.fragment.shard_index;
  fragment_id = p.fragment.id;
  sha256 = p.fragment.sha256;
  size_bytes = p.fragment.size_bytes;
  node_id = p.node.id;
  endpoint = p.node.endpoint;
  ticket = wire;
}

unfoldable pub planned_chunk : Chunk → List DownloadFragment → PlannedChunk
planned_chunk c frs = record {
  seq = c.seq;
  sha256 = c.sha256;
  size_bytes = c.size_bytes;
  fragments = frs;
}

module _ (ed : Ed25519) (b64 : Base64)
    (sign_ticket : ℕ → ℕ → ℕ → List ℕ → ℤ → Result StoreError (List ℕ × ℕ)) where
  -- A ticket that does not decode is not recorded.
  unfoldable pub record_ticket : ℕ → DownloadPlacement → List ℕ × ℕ → Run (Unit {0})
  record_ticket f p (wire, expires) = elim (decode_unverified ed b64 wire) [
    | err _ ↦ pure tt
    | ok tk ↦ insert_download_ticket (record {
      nonce = tk.nonce;
      file_id = f;
      fragment_id = p.fragment.id;
      node_id = p.node.id;
      size_bytes = p.fragment.size_bytes;
      expires_at = expires;
    })
  ]

  -- The inner loop, from the number of fragments planned before.
  unfoldable pub plan_fragments : ℕ → ℕ → List DownloadPlacement → Run (List DownloadFragment)
  plan_fragments f total [] = pure []
  plan_fragments f total (p ∷ ps) =
      let rest : Run (List DownloadFragment) = plan_fragments f (total + 1) ps in
      if leb max_plan_fragments total
      then raise invalid
      else lift (sign_ticket total p.fragment.id p.node.id p.fragment.sha256 p.fragment.size_bytes)
        >>= λ signed.
            record_ticket f p signed >> (rest >>= λ frs. pure (planned_fragment p signed.0 ∷ frs))

  unfoldable pub plan_chunks : ℕ → ℕ → ℕ → List DownloadChunk → Run (List PlannedChunk)
  plan_chunks f need total [] = pure []
  plan_chunks f need total (ch ∷ chs) =
      let picked : List DownloadPlacement = pick_download_placements ch.placements need in
      let rest : Run (List PlannedChunk) = plan_chunks f need (total + length picked) chs in
      if ltb (length picked) need
      then raise unavailable
      else plan_fragments f total picked >>= λ frs.
          rest >>= λ out. pure (planned_chunk ch.chunk frs ∷ out)

  unfoldable pub plan_loaded : File × FileVersion × List DownloadChunk → Run DownloadResult
  plan_loaded (f, v, chunks) = plan_chunks f.id (shards_needed v) 0 chunks >>= λ out. pure (record {
    file_id = f.id;
    version_no = v.version_no;
    size_bytes = v.size_bytes;
    content_sha256 = v.content_sha256;
    encryption_meta = v.encryption_meta;
    chunks = out;
  })

  unfoldable pub plan_download : ℕ → ℕ → Run DownloadResult
  plan_download owner i = load_download owner i >>= plan_loaded
