-- ===== src/Repair/Queued.antt =====
-- internal/repair/worker.go: the chunks of a node that went offline and the jobs for them.
use distributed_storage_plat.Common.{
  if◌then◌else◌, not, ℕ, ◌≤◌, ◌≡◌, refl, sym, ap, subst, ◌∙◌, ◌⊎◌, inl, inr, Bool, true, false,
  none, some, List, [], ◌∷◌, ◌++◌, ◌==◌, Bool-cases, Option-cases, arith, Result, ok, err,
  err_ne_ok, ok-injective,
}
use distributed_storage_plat.Common.Database.{select-ok, then-ok}
use distributed_storage_plat.Uploads.Rows.{exists_row, StoreError, db_error, Tables}
use distributed_storage_plat.Uploads.Placements.{mem_id}
use distributed_storage_plat.Uploads.Repair.{
  LostPlacement, mark_placements_lost_by_node, chunk_health, health_of,
}
use distributed_storage_plat.Repair.Worker.{
  send_job, same_id, add_job, Priority, priority_subject, RepairJob, World, Act, in_store,
  publish_repair, queue_short, queue_chunk, queue_lost, on_node_offline,
}
use mathlib.Core.List.{Memᴰ}

-- The chunk is whole, or a job for it, with its number of stored copies, is among the jobs.
unfoldable pub Queued : Tables → List RepairJob → ℕ → Type 0
Queued t jobs c =
    (16 ≤ health_of t c) ⊎ Memᴰ (record { chunk_id = c; healthy = health_of t c }) jobs

mem-append-left : {A : Type 0} {x : A} (xs ys : List A) → Memᴰ x xs → Memᴰ x (xs ++ ys)
mem-append-left [] ys m = elim m [ ]
mem-append-left (y ∷ xs) ys (Memᴰ.head e) = Memᴰ.head e
mem-append-left (y ∷ xs) ys (Memᴰ.tail m) = Memᴰ.tail (mem-append-left xs ys m)

mem-append-last : {A : Type 0} (x : A) (xs : List A) → Memᴰ x (xs ++ x ∷ [])
mem-append-last x [] = Memᴰ.head refl
mem-append-last x (y ∷ xs) = Memᴰ.tail (mem-append-last x xs)

same_id-eq : (a b : RepairJob) → same_id a b ≡ true → a ≡ b
unfolding same_id
same_id-eq a b h =
    let chunk : a.chunk_id ≡ b.chunk_id = ground arith in
    let healthy : a.healthy ≡ b.healthy = ground arith in cc

exists-has :
    (job : RepairJob) (jobs : List RepairJob) → exists_row (same_id job) jobs ≡ true → Memᴰ job jobs
unfolding exists_row
exists-has job [] h = absurd (cc)
exists-has job (j ∷ jobs) h = elim (Bool-cases (same_id job j)) [
  | inl same ↦ Memᴰ.head (same_id-eq job j same)
  | inr other ↦ Memᴰ.tail (exists-has job jobs (rw other at h))
]

add_job-has : (job : RepairJob) (jobs : List RepairJob) → Memᴰ job (add_job job jobs)
unfolding add_job
add_job-has job jobs = elim (Bool-cases (exists_row (same_id job) jobs)) [
  | inl old ↦ rw (add_job, old) (exists-has job jobs old)
  | inr new ↦ rw (add_job, new) (mem-append-last job jobs)
]

add_job-keeps :
    (job : RepairJob) (jobs : List RepairJob) (j : RepairJob)
    → Memᴰ j jobs
    → Memᴰ j (add_job job jobs)
unfolding add_job
add_job-keeps job jobs j m = elim (Bool-cases (exists_row (same_id job) jobs)) [
  | inl old ↦ rw (add_job, old) m
  | inr new ↦ rw (add_job, new) (mem-append-left jobs (job ∷ []) m)
]

-- What the step from one world to another keeps: the tables, the bus and the jobs.
record Grows (w w' : World) : Type 0 where
  pub same : w'.session.tables ≡ w.session.tables
  pub bus : w'.has_bus ≡ w.has_bus
  pub kept : (job : RepairJob) → Memᴰ job w.jobs → Memᴰ job w'.jobs

Grows-trans : {a b c : World} → Grows a b → Grows b c → Grows a c
Grows-trans g h = record {
  same = h.same ∙ g.same;
  bus = h.bus ∙ g.bus;
  kept = λ j m. h.kept j (g.kept j m);
}

Grows-refl : (w : World) → Grows w w
Grows-refl w = record { same = refl; bus = refl; kept = λ j m. m }

publish_cases :
    (job : RepairJob) (w : World) (r : List Bool) {u : Unit {0}}
    → (let q : Result StoreError (Unit {0}) × World = elim r [
      | [] ↦ (ok tt, record w { jobs = add_job job w.jobs })
      | true ∷ rest ↦ (err db_error, record w { refusals = rest })
      | false ∷ rest ↦ (ok tt, record w { jobs = add_job job w.jobs; refusals = rest })
    ] in
        q).0
      ≡ ok u
    → (let q : Result StoreError (Unit {0}) × World = elim r [
      | [] ↦ (ok tt, record w { jobs = add_job job w.jobs })
      | true ∷ rest ↦ (err db_error, record w { refusals = rest })
      | false ∷ rest ↦ (ok tt, record w { jobs = add_job job w.jobs; refusals = rest })
    ] in
        Grows w q.1 × Memᴰ job q.1.jobs)
publish_cases job w [] h = (
  record { same = refl; bus = refl; kept = λ j m. add_job-keeps job w.jobs j m },
  add_job-has job w.jobs,
)
publish_cases job w (true ∷ rest) h = absurd (err_ne_ok (sym h))
publish_cases job w (false ∷ rest) h = (
  record { same = refl; bus = refl; kept = λ j m. add_job-keeps job w.jobs j m },
  add_job-has job w.jobs,
)

send_job-ok :
    (job : RepairJob) (w : World) {p : Priority} {u : Unit {0}}
    → priority_subject job.healthy ≡ some p
    → (send_job job w).0 ≡ ok u
    → Grows w (send_job job w).1 × Memᴰ job (send_job job w).1.jobs
unfolding send_job
send_job-ok job w e h = rw (send_job, e) (publish_cases job w w.refusals (rw (send_job, e) at h))

publish_repair-ok :
    (job : RepairJob) (w : World) {p : Priority} {u : Unit {0}}
    → w.has_bus ≡ true
    → priority_subject job.healthy ≡ some p
    → (publish_repair job w).0 ≡ ok u
    → Grows w (publish_repair job w).1 × Memᴰ job (publish_repair job w).1.jobs
unfolding publish_repair
publish_repair-ok job w bus e h =
    let sent : publish_repair job w ≡ send_job job w =
      ap (λ (b : Bool). if not b then (ok tt, w) else send_job job w) bus in
    let ran = sym (ap (λ (q : Result StoreError (Unit {0}) × World). q.0) sent) ∙ h in
    subst (λ (q : Result StoreError (Unit {0}) × World). Grows w q.1 × Memᴰ job q.1.jobs) (sym sent)
      (send_job-ok job w e ran)

whole_or_not : (h : ℕ) → priority_subject h ≡ none → 16 ≤ h
unfolding priority_subject
whole_or_not h e = ground arith

queue_short-ok :
    (c h : ℕ) (w : World) {u : Unit {0}}
    → w.has_bus ≡ true
    → (queue_short c h w).0 ≡ ok u
    → Grows w (queue_short c h w).1
      × ((16 ≤ h) ⊎ Memᴰ (record { chunk_id = c; healthy = h }) (queue_short c h w).1.jobs)
unfolding queue_short
queue_short-ok c h w bus k = elim (Option-cases (priority_subject h)) [
  | inl whole ↦ rw (queue_short, whole) (Grows-refl w, inl (whole_or_not h whole))
  | inr (p, short) ↦
      let (grows, published) =
        publish_repair-ok (record { chunk_id = c; healthy = h }) w bus short
          (rw (queue_short, short) at k) in
      rw (queue_short, short) (grows, inr published)
]

queue_chunk-ok :
    (c : ℕ) (w : World) {u : Unit {0}}
    → w.has_bus ≡ true
    → (queue_chunk c w).0 ≡ ok u
    → Grows w (queue_chunk c w).1 × Queued w.session.tables (queue_chunk c w).1.jobs c
unfolding queue_chunk in_store chunk_health Queued
queue_chunk-ok c w bus k =
    let (h, counted, k1, e1) = then-ok (in_store (chunk_health c)) (queue_short c) w k in
    let (h≡, kept) = select-ok db_error (λ (t : Tables). health_of t c) w.session counted in
    let w1 = (in_store (chunk_health c) w).1 in
    let (grows, queued) = queue_short-ok c h w1 bus k1 in
    let first : Grows w w1 = record { same = kept; bus = refl; kept = λ j m. m } in
    subst
      (λ (q : World).
        Grows w q
        × ((16 ≤ health_of w.session.tables c)
            ⊎ Memᴰ (record { chunk_id = c; healthy = health_of w.session.tables c }) q.jobs))
      (ap (λ q. q.1) (sym e1))
      (
        Grows-trans first grows,
        subst
            (λ (n : ℕ).
              (16 ≤ n) ⊎ Memᴰ (record { chunk_id = c; healthy = n }) (queue_short c h w1).1.jobs)
            h≡ queued,
      )

Queued-Grows :
    (t : Tables) (c : ℕ) (w w' : World) → Grows w w' → Queued t w.jobs c → Queued t w'.jobs c
unfolding Queued
Queued-Grows t c w w' g (inl whole) = inl whole
Queued-Grows t c w w' g (inr job) = inr (g.kept _ job)

seen_or_new :
    (t : Tables) (jobs : List RepairJob) (c : ℕ) (seen : List ℕ)
    → ((d : ℕ) → mem_id d seen ≡ true → Queued t jobs d)
    → Queued t jobs c
    → (d : ℕ) → mem_id d (c ∷ seen) ≡ true
    → Queued t jobs d
unfolding mem_id
seen_or_new t jobs c seen f q d h = elim (Bool-cases (c == d)) [
  | inl same ↦ let e : c ≡ d = ground arith in subst (λ (x : ℕ). Queued t jobs x) e q
  | inr other ↦ f d (rw other at h)
]

none_seen : (t : Tables) (jobs : List RepairJob) (d : ℕ) → mem_id d [] ≡ true → Queued t jobs d
unfolding mem_id
none_seen t jobs d h = absurd (cc)

head_or_tail :
    (t : Tables) (x : LostPlacement) (jobs : List RepairJob) {lp : LostPlacement}
    {lps : List LostPlacement}
    → Memᴰ lp (x ∷ lps)
    → Queued t jobs x.chunk_id
    → (Memᴰ lp lps → Queued t jobs lp.chunk_id)
    → Queued t jobs lp.chunk_id
head_or_tail t x jobs (Memᴰ.head e) q k =
    subst (λ (y : LostPlacement). Queued t jobs y.chunk_id) (sym e) q
head_or_tail t x jobs (Memᴰ.tail m) q k = k m

queue_lost-Grows :
    (seen : List ℕ) (lps : List LostPlacement) (w : World) {u : Unit {0}}
    → w.has_bus ≡ true
    → (queue_lost seen lps w).0 ≡ ok u
    → Grows w (queue_lost seen lps w).1
unfolding queue_lost
queue_lost-Grows seen [] w bus h = Grows-refl w
queue_lost-Grows seen (x ∷ lps) w bus h = elim (Bool-cases (mem_id x.chunk_id seen)) [
  | inl old ↦ rw (queue_lost, old) (queue_lost-Grows seen lps w bus (rw (queue_lost, old) at h))
  | inr new ↦
      let rest : Act (Unit {0}) = queue_lost (x.chunk_id ∷ seen) lps in
      let (u, queued, h1, e1) =
        then-ok (queue_chunk x.chunk_id) (λ _. rest) w (rw (queue_lost, new) at h) in
      let w1 = (queue_chunk x.chunk_id w).1 in
      let first = (queue_chunk-ok x.chunk_id w bus queued).0 in
      let grows =
        Grows-trans first (queue_lost-Grows (x.chunk_id ∷ seen) lps w1 (first.bus ∙ bus) h1) in
      rw (queue_lost, new) (subst (λ (q : World). Grows w q) (ap (λ q. q.1) (sym e1)) grows)
]

queue_lost-ok :
    (t : Tables) (seen : List ℕ) (lps : List LostPlacement) (w : World) {u : Unit {0}}
    {lp : LostPlacement}
    → w.session.tables ≡ t
    → w.has_bus ≡ true
    → ((d : ℕ) → mem_id d seen ≡ true → Queued t w.jobs d)
    → (queue_lost seen lps w).0 ≡ ok u
    → Memᴰ lp lps
    → Queued t (queue_lost seen lps w).1.jobs lp.chunk_id
unfolding queue_lost
queue_lost-ok t seen [] w same bus f h m = elim m [ ]
queue_lost-ok t seen (x ∷ lps) w {lp = lp} same bus f h m =
    elim (Bool-cases (mem_id x.chunk_id seen)) [
      | inl old ↦
          let h1 = rw (queue_lost, old) at h in
          rw (queue_lost, old)
            (head_or_tail t x (queue_lost seen lps w).1.jobs m
              (Queued-Grows t x.chunk_id w (queue_lost seen lps w).1
                (queue_lost-Grows seen lps w bus h1) (f x.chunk_id old))
              (λ k. queue_lost-ok t seen lps w same bus f h1 k))
      | inr new ↦
          let rest : Act (Unit {0}) = queue_lost (x.chunk_id ∷ seen) lps in
          let (u, queued, h1, e1) =
            then-ok (queue_chunk x.chunk_id) (λ _. rest) w (rw (queue_lost, new) at h) in
          let w1 = (queue_chunk x.chunk_id w).1 in
          let (grows, now) = queue_chunk-ok x.chunk_id w bus queued in
          let mine = subst (λ (s : Tables). Queued s w1.jobs x.chunk_id) same now in
          let f1 =
            seen_or_new t w1.jobs x.chunk_id seen (λ d k. Queued-Grows t d w w1 grows (f d k))
              mine in
          let more = queue_lost-Grows (x.chunk_id ∷ seen) lps w1 (grows.bus ∙ bus) h1 in
          let ends =
            head_or_tail t x (rest w1).1.jobs m (Queued-Grows t x.chunk_id w1 (rest w1).1 more mine)
              (λ k.
                queue_lost-ok t (x.chunk_id ∷ seen) lps w1 (grows.same ∙ same) (grows.bus ∙ bus) f1
                  h1 k) in
          rw (queue_lost, new)
            (subst (λ (q : World). Queued t q.jobs lp.chunk_id) (ap (λ q. q.1) (sym e1)) ends)
    ]

-- When the handler of a node that went offline returns, and the worker has a bus, then for each
-- placement that it marked lost the chunk has at least 16 stored copies left, or a repair job for
-- the chunk with its number of stored copies was published: by the handler, or in the minute
-- before, in which case the stream drops the new one.
pub on_node_offline-Queued :
    (n : ℕ) (w : World) {u : Unit {0}} {lps : List LostPlacement} {lp : LostPlacement}
    → w.has_bus ≡ true
    → (mark_placements_lost_by_node n w.session).0 ≡ ok lps
    → (on_node_offline n w).0 ≡ ok u
    → Memᴰ lp lps
    → Queued (on_node_offline n w).1.session.tables (on_node_offline n w).1.jobs lp.chunk_id
unfolding on_node_offline in_store
on_node_offline-Queued n w {lps = lps} {lp = lp} bus marked h m =
    let (got, read, h1, e1) =
      then-ok (in_store (mark_placements_lost_by_node n)) (queue_lost []) w h in
    let same : got ≡ lps = ok-injective (sym read ∙ marked) in
    let w1 = (in_store (mark_placements_lost_by_node n) w).1 in
    let m1 = subst (λ (l : List LostPlacement). Memᴰ lp l) (sym same) m in
    let ends =
      queue_lost-ok w1.session.tables [] got w1 refl bus (none_seen w1.session.tables w1.jobs) h1
        m1 in
    let tables = (queue_lost-Grows [] got w1 bus h1).same in
    let at_end = ap (λ q. q.1) (sym e1) in
    subst (λ (q : World). Queued q.session.tables q.jobs lp.chunk_id) at_end
      (subst (λ (s : Tables). Queued s (queue_lost [] got w1).1.jobs lp.chunk_id) (sym tables) ends)
