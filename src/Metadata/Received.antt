-- ===== src/Metadata/Received.antt =====
-- internal/metadata/upload.go: every fragment that `CommitUpload` confirms is stored or has a
-- receipt that its node signed.
use distributed_storage_plat.Common.{
  ℕ, ◌+◌, ◌≡◌, refl, sym, ap, ◌∙◌, subst, ◌⊎◌, inl, inr, Bool, true, false, ◌&&◌, not, some, List,
  [], ◌∷◌, ◌++◌, ◌==◌, All, All-append, Bool-cases, Option-cases, Result, ok, err, err_ne_ok,
  ok-injective, lift,
}
use distributed_storage_plat.Common.Int64.{bits64}
use distributed_storage_plat.Common.Bytes.{be}
use distributed_storage_plat.Common.Database.{Session, then-ok}
use distributed_storage_plat.Tickets.Wire.{Base64, Ed25519}
use distributed_storage_plat.Receipts.Receipt.{Receipt, verify}
use distributed_storage_plat.Receipts.Matching.{IsGenuine, verify-IsGenuine_receipt}
use distributed_storage_plat.Uploads.Rows.{File, FileVersion, Tables, is_stored}
use distributed_storage_plat.Uploads.Placements.{mem_id}
use distributed_storage_plat.Uploads.Moves.{and_right}
use distributed_storage_plat.Uploads.Covered.{some-injective}
use distributed_storage_plat.Uploads.Commit.{
  PlacementTarget, pending_targets_for_version, commit_upload,
}
use distributed_storage_plat.Metadata.Receive.{
  put_target, by_frag, already_stored, accepts, match_receipt, match_receipts, commit_received,
  receive_upload,
}
use mathlib.Core.List.{Memᴰ}

-- The range over a map visits its entries only.
pub record IsVisit (visit : ℕ → List PlacementTarget → List PlacementTarget) : Type 0 where
  pub visits :
      (n : ℕ) (ts : List PlacementTarget) {t : PlacementTarget} → Memᴰ t (visit n ts) → Memᴰ t ts

cons-Mem :
    {A : Type 0} {x y : A} {xs ys : List A}
    → ((z : A) → Memᴰ z xs → Memᴰ z ys)
    → Memᴰ x (y ∷ xs)
    → Memᴰ x (y ∷ ys)
cons-Mem f (Memᴰ.head e) = Memᴰ.head e
cons-Mem f (Memᴰ.tail m) = Memᴰ.tail (f _ m)

swap : {A : Type 0} {x y z : A} {xs : List A} → Memᴰ x (y ∷ z ∷ xs) → Memᴰ x (z ∷ y ∷ xs)
swap (Memᴰ.head e) = Memᴰ.tail (Memᴰ.head e)
swap (Memᴰ.tail (Memᴰ.head e)) = Memᴰ.head e
swap (Memᴰ.tail (Memᴰ.tail m)) = Memᴰ.tail (Memᴰ.tail m)

put_target-Mem :
    (acc : List PlacementTarget) (t : PlacementTarget) {x : PlacementTarget}
    → Memᴰ x (put_target acc t)
    → Memᴰ x (t ∷ acc)
unfolding put_target
put_target-Mem [] t m = m
put_target-Mem (y ∷ acc) t m = elim (Bool-cases (y.fragment.id == t.fragment.id)) [
  | inl same ↦ cons-Mem (λ z k. Memᴰ.tail k) (rw same at m)
  | inr other ↦ swap (cons-Mem (λ z k. put_target-Mem acc t k) (rw other at m))
]

from_put :
    {A : Type 0} {x t : A} {acc ts : List A} → Memᴰ x (t ∷ acc) → Memᴰ x acc ⊎ Memᴰ x (t ∷ ts)
from_put (Memᴰ.head e) = inr (Memᴰ.head e)
from_put (Memᴰ.tail m) = inl m

ok_of :
    {E A : Type 0} (r : Result E A)
    → (let b : Bool = elim r [ ok _ ↦ true | err _ ↦ false ] in b) ≡ true
    → (a : A) × (r ≡ ok a)
ok_of (ok a) h = (a, refl)
ok_of (err e) h = absurd (cc)

by_frag-Mem :
    (acc ts : List PlacementTarget) {x : PlacementTarget}
    → Memᴰ x (by_frag acc ts)
    → Memᴰ x acc ⊎ Memᴰ x ts
unfolding by_frag
by_frag-Mem acc [] m = inl m
by_frag-Mem acc (t ∷ ts) m = elim (by_frag-Mem (put_target acc t) ts m) [
  | inl k ↦ from_put (put_target-Mem acc t k)
  | inr k ↦ inr (Memᴰ.tail k)
]

from_empty : {A : Type 0} {x : A} {ts : List A} → Memᴰ x [] ⊎ Memᴰ x ts → Memᴰ x ts
from_empty (inl m) = elim m [ ]
from_empty (inr m) = m

module _ (ed : Ed25519) (b64 : Base64) where
  -- The node of a target holds the fragment: it is recorded as stored, or one of the receipts is
  -- its signature over the fragment's and its own id, hash and size.
  unfoldable pub Backed : List PlacementTarget → List (List ℕ) → ℕ → Type 0
  Backed targets wires i =
      ((t : PlacementTarget) × Memᴰ t targets
        × (t.fragment.id ≡ i)
        × (is_stored t.placement.status ≡ true))
      ⊎ ((t : PlacementTarget) × (w : List ℕ) × (r : Receipt) × Memᴰ t targets
          × Memᴰ w wires
          × (t.fragment.id ≡ i)
          × IsGenuine ed b64 t.node.public_key w r
          × (r.node_id ≡ be 16 t.node.id)
          × (r.fragment_id ≡ be 16 i)
          × (r.sha256 ≡ t.fragment.sha256))

  already_stored-Backed :
      (ts targets : List PlacementTarget) (wires : List (List ℕ))
      → ((x : PlacementTarget) → Memᴰ x ts → Memᴰ x targets)
      → All (Backed targets wires) (already_stored ts)
  unfolding already_stored Backed
  already_stored-Backed [] targets wires f = tt
  already_stored-Backed (t ∷ ts) targets wires f =
      let rest = already_stored-Backed ts targets wires (λ x m. f x (Memᴰ.tail m)) in
      elim (Bool-cases (is_stored t.placement.status)) [
        | inl here ↦ rw here (inl (t, f t (Memᴰ.head refl), refl, here), rest)
        | inr missing ↦ rw missing rest
      ]

  accepts-receipt :
      (w : List ℕ) (t : PlacementTarget)
      → accepts ed b64 w t ≡ true
      → (r : Receipt) × (verify ed b64 w t.node.public_key
            (be 16 t.node.id)
            (be 16 t.fragment.id)
            t.fragment.sha256
            (bits64 t.fragment.size_bytes)
          ≡ ok r)
  unfolding accepts
  accepts-receipt w t h =
      ok_of
        (verify ed b64 w t.node.public_key (be 16 t.node.id) (be 16 t.fragment.id) t.fragment.sha256
          (bits64 t.fragment.size_bytes))
        h

  match_receipt-Backed :
      (w : List ℕ) (seen : List ℕ) (ts targets : List PlacementTarget) (wires : List (List ℕ))
      {i : ℕ}
      → Memᴰ w wires
      → ((x : PlacementTarget) → Memᴰ x ts → Memᴰ x targets)
      → match_receipt ed b64 w seen ts ≡ some i
      → Backed targets wires i
  unfolding match_receipt Backed
  match_receipt-Backed w seen [] targets wires m f h = absurd (cc)
  match_receipt-Backed w seen (t ∷ ts) targets wires {i} m f h =
      elim (Bool-cases (not (mem_id t.fragment.id seen) && accepts ed b64 w t)) [
        | inl hit ↦
            let same : t.fragment.id ≡ i = some-injective (rw hit at h) in
            let (r, verified) =
              accepts-receipt w t (and_right (not (mem_id t.fragment.id seen)) _ hit) in
            let (genuine, node, fragment, size, sha) =
              verify-IsGenuine_receipt ed b64 w t.node.public_key (be 16 t.node.id)
                (be 16 t.fragment.id) t.fragment.sha256 (bits64 t.fragment.size_bytes) r verified in
            inr (
              t,
              w,
              r,
              f t (Memᴰ.head refl),
              m,
              same,
              genuine,
              node,
              fragment ∙ ap (λ (j : ℕ). be 16 j) same,
              sha,
            )
        | inr miss ↦
            match_receipt-Backed w seen ts targets wires m (λ x k. f x (Memᴰ.tail k)) (rw miss at h)
      ]

  module _ (visit : ℕ → List PlacementTarget → List PlacementTarget) (only : IsVisit visit) where
    match_receipts-Backed :
        (n : ℕ) (map_of targets : List PlacementTarget) (ws wires : List (List ℕ)) (stored : List ℕ)
        {ids : List ℕ}
        → ((x : PlacementTarget) → Memᴰ x map_of → Memᴰ x targets)
        → ((w : List ℕ) → Memᴰ w ws → Memᴰ w wires)
        → All (Backed targets wires) stored
        → match_receipts ed b64 visit n map_of stored ws ≡ ok ids
        → All (Backed targets wires) ids
    unfolding match_receipts
    match_receipts-Backed n map_of targets [] wires stored f g b h =
        subst (λ (l : List ℕ). All (Backed targets wires) l) (ok-injective h) b
    match_receipts-Backed n map_of targets (w ∷ ws) wires stored f g b h =
        elim (Option-cases (match_receipt ed b64 w stored (visit n map_of))) [
          | inl missing ↦ absurd (err_ne_ok (sym (rw (match_receipts, missing) at h)))
          | inr (i, found) ↦
              let backed =
                match_receipt-Backed w stored (visit n map_of) targets wires (g w (Memᴰ.head refl))
                  (λ x m. f x (only.visits n map_of m)) found in
              match_receipts-Backed (n + 1) map_of targets ws wires (stored ++ i ∷ []) f
                (λ x m. g x (Memᴰ.tail m))
                (All-append (Backed targets wires) stored (i ∷ []) b (backed, tt))
                (rw (match_receipts, found) at h)
        ]

    -- When `CommitUpload` of the service returns, the store's `CommitUpload` returned the same for a
    -- list of fragments of which each is backed: a live placement of the version has it as stored
    -- already, or is on a node whose signed receipt for it is among those that the client sent. The
    -- order in which the service visits its map does not matter.
    pub receive_upload-Backed :
        (owner i : ℕ) (wires : List (List ℕ)) (s : Session Tables) {r : File × FileVersion}
        → (receive_upload ed b64 visit owner i wires s).0 ≡ ok r
        → (ids : List ℕ) × (targets : List PlacementTarget) × (t : Session Tables)
          × ((pending_targets_for_version i s).0 ≡ ok targets)
          × All (Backed targets wires) ids
          × ((commit_upload owner i ids t).0 ≡ ok r)
          × (receive_upload ed b64 visit owner i wires s ≡ commit_upload owner i ids t)
    unfolding receive_upload commit_received
    receive_upload-Backed owner i wires s h =
        let (targets, read, h1, e1) =
          then-ok (pending_targets_for_version i) (commit_received ed b64 visit owner i wires) s
            h in
        let s1 = (pending_targets_for_version i s).1 in
        let matched =
          match_receipts ed b64 visit 0 (by_frag [] targets) (already_stored targets) wires in
        let (ids, found, h2, e2) =
          then-ok (lift matched) (λ stored. commit_upload owner i stored) s1 h1 in
        (
          ids,
          targets,
          s1,
          read,
          match_receipts-Backed 0 (by_frag [] targets) targets wires wires (already_stored targets)
              (λ x m. from_empty (by_frag-Mem [] targets m)) (λ w m. m)
              (already_stored-Backed targets targets wires (λ x m. m)) found,
          h2,
          e1 ∙ e2,
        )
