-- ===== src/Peer/Bursts.antt =====
-- The bursts of incoming requests that `note_incoming_request_burst` and
-- `flush_incoming_request_burst` of src/peer_stats.cpp cut a peer's requests into.
use bittorrent_peer_linking.Base.{
  ℕ, suc, ◌+◌, ◌≤◌, ℤ, pos, Bool, true, false, ◌≡◌, refl, arith, String, List, [], ◌∷◌, map, none,
  some, if◌then◌else◌, push_back, length, length-push_back, Bool-cases, inl, inr, ap, sym, ◌-ℤ◌,
}
pub mod Accounts
use mathlib.Core.Path.{subst}
use bittorrent_peer_linking.Double.{Double}
use bittorrent_peer_linking.Util.{TimestampPair, PeerId, PeerInfo, ns_to_ms}
use bittorrent_peer_linking.Peer.State.{PeerStats, new_peer}
use bittorrent_peer_linking.Peer.Activity.{
  mark_seen, note_interaction, record_outstanding_depth, flush_incoming_request_burst,
  note_incoming_request_burst, advance_activity_window, note_peer_id,
  k_incoming_request_burst_gap_ms,
}
use bittorrent_peer_linking.Peer.Events.{
  PeerRequest, note_connect, note_disconnect, note_request_sent, note_block_response, note_timeout,
  note_drop, note_incoming_request, note_block_uploaded, note_snubbed, note_unsnubbed,
}
use bittorrent_peer_linking.Peer.Snapshot.{
  update_from_snapshot, finalize, reset_outstanding_requests,
}
use bittorrent_peer_linking.Peer.History.{
  PeerCall, sees, identifies, connects, disconnects, sends_request, receives_block, times_out,
  drops, receives_request, uploads_block, snubs, unsnubs, snapshots, finishes_piece, resets,
  finalizes, step, run, finish_piece,
}

-- The fields that tell bursts.
pub record BurstView (D : Double) : Type 0 where
  pub active : Bool
  pub current : ℕ
  pub sizes : List D.Real
  pub durations : List D.Real
  pub idle_gaps : List D.Real
  pub requests : ℕ

abbrev pub sum : List ℕ → ℕ
sum [] = 0
sum (n ∷ ns) = n + sum ns

abbrev pub AllPositive : List ℕ → Type 0
AllPositive [] = Unit {0}
AllPositive (n ∷ ns) = (1 ≤ n) × AllPositive ns

sum-push_back : (ns : List ℕ) (n : ℕ) → sum (push_back ns n) ≡ sum ns + n
sum-push_back [] n = omega arith
sum-push_back (m ∷ ns) n = omega (arith, sum-push_back ns n)

push_back-AllPositive :
    (ns : List ℕ) (n : ℕ) → AllPositive ns → 1 ≤ n → AllPositive (push_back ns n)
push_back-AllPositive [] n a h = (h, tt)
push_back-AllPositive (m ∷ ns) n a h = (a.0, push_back-AllPositive ns n a.1 h)

map-push_back {ℓ κ} :
    {A : Type ℓ} {B : Type κ} (f : A → B) (xs : List A) (x : A)
    → map f (push_back xs x) ≡ push_back (map f xs) (f x)
map-push_back f [] x = refl
map-push_back f (y ∷ xs) x = ap (◌∷◌ (f y)) (map-push_back f xs x)

module _ {D : Double} where
  abbrev pub burst_view : PeerStats D → BurstView D
  burst_view p = record {
    active = p.incoming_request_burst_active;
    current = p.current_incoming_request_burst_size;
    sizes = p.incoming_request_burst_size_samples;
    durations = p.incoming_request_burst_duration_ms_samples;
    idle_gaps = p.incoming_request_burst_idle_gap_ms_samples;
    requests = p.incoming_requests_received;
  }

  -- `bursts` are the sizes of the bursts that are over.
  pub record IsLedger (v : BurstView D) (bursts : List ℕ) : Type 0 where
    pub samples : v.sizes ≡ map (λ n. D.of_ℤ (pos n)) bursts
    pub total : sum bursts + v.current ≡ v.requests
    pub positive : AllPositive bursts
    pub timed : length v.durations ≡ length bursts
    pub gaps : length v.idle_gaps ≤ length bursts
    pub idle : v.active ≡ false → v.current ≡ 0
    pub busy : v.active ≡ true → 1 ≤ v.current

  -- The bursts so far account for every request: each is in one burst, none of which is empty.
  abbrev pub IsAccounted : PeerStats D → Type 0
  IsAccounted p = (bursts : List ℕ) × IsLedger (burst_view p) bursts

  -- The size of the burst that is open becomes a sample.
  abbrev closed : PeerStats D → List ℕ → List ℕ
  closed p bursts = push_back bursts p.current_incoming_request_burst_size

  -- The view with another count of requests.
  abbrev pub counting : ℕ → PeerStats D → BurstView D
  counting n p = record (burst_view p) { requests = n }

  flush-IsLedger :
      (p : PeerStats D) (n : ℕ) (bursts : List ℕ)
      → p.incoming_request_burst_active ≡ true
      → IsLedger (counting n p) bursts
      → IsLedger (counting n (flush_incoming_request_burst p)) (closed p bursts)
  unfolding flush_incoming_request_burst
  flush-IsLedger p n bursts e l = rw e (record {
    samples = cc (
      l.samples,
      map-push_back (λ n. D.of_ℤ (pos n)) bursts p.current_incoming_request_burst_size,
    );
    total = omega (arith, l.total, sum-push_back bursts p.current_incoming_request_burst_size);
    positive = push_back-AllPositive bursts _ l.positive (l.busy e);
    timed = omega (
      arith,
      l.timed,
      length-push_back {0} p.incoming_request_burst_duration_ms_samples,
      length-push_back bursts p.current_incoming_request_burst_size,
    );
    gaps = omega (arith, l.gaps, length-push_back bursts p.current_incoming_request_burst_size);
    idle = λ h. refl;
    busy = λ h. cc;
  })

  flush_idle :
      (p : PeerStats D)
      → p.incoming_request_burst_active ≡ false
      → flush_incoming_request_burst p ≡ p
  unfolding flush_incoming_request_burst
  flush_idle p e = ground arith

  flush-requests :
      (p : PeerStats D)
      → (flush_incoming_request_burst p).incoming_requests_received ≡ p.incoming_requests_received
  unfolding flush_incoming_request_burst
  flush-requests p = ground arith

  flush_inactive :
      (p : PeerStats D) → (flush_incoming_request_burst p).incoming_request_burst_active ≡ false
  unfolding flush_incoming_request_burst
  flush_inactive p = ground arith

  flush-gaps :
      (p : PeerStats D)
      → length (flush_incoming_request_burst p).incoming_request_burst_idle_gap_ms_samples
        ≡ length p.incoming_request_burst_idle_gap_ms_samples
  unfolding flush_incoming_request_burst
  flush-gaps p = ground arith

  pub flush-IsAccounted :
      (p : PeerStats D) → IsAccounted p → IsAccounted (flush_incoming_request_burst p)
  flush-IsAccounted p (bursts, l) = elim (Bool-cases p.incoming_request_burst_active) [
    | inr e ↦ subst IsAccounted (sym (flush_idle p e)) (bursts, l)
    | inl e ↦ (
      closed p bursts,
      subst (λ n. IsLedger (counting n (flush_incoming_request_burst p)) (closed p bursts))
          (sym (flush-requests p)) (flush-IsLedger p _ bursts e l),
    )
  ]

  first-IsLedger :
      (q : PeerStats D) (n : ℕ) (t : ℤ) (bursts : List ℕ)
      → q.incoming_requests_received ≡ suc n
      → q.incoming_request_burst_active ≡ false
      → IsLedger (counting n q) bursts
      → IsLedger (burst_view (note_incoming_request_burst q t)) bursts
  unfolding note_incoming_request_burst
  first-IsLedger q n t bursts c e l = rw e (record {
    samples = l.samples;
    total = omega (arith, l.total, l.idle e);
    positive = l.positive;
    timed = l.timed;
    gaps = l.gaps;
    idle = λ h. cc;
    busy = λ h. omega arith;
  })

  more-IsLedger :
      (q : PeerStats D) (n : ℕ) (t : ℤ) (bursts : List ℕ)
      → q.incoming_requests_received ≡ suc n
      → q.incoming_request_burst_active ≡ true
      → D.le
          (ns_to_ms D (t -ℤ q.current_incoming_request_burst_last_mono_ns))
          (k_incoming_request_burst_gap_ms D)
        ≡ true
      → IsLedger (counting n q) bursts
      → IsLedger (burst_view (note_incoming_request_burst q t)) bursts
  unfolding note_incoming_request_burst
  more-IsLedger q n t bursts c e near l =
      simp (e, near)
        (record {
          samples = l.samples;
          total = omega (arith, l.total);
          positive = l.positive;
          timed = l.timed;
          gaps = l.gaps;
          idle = λ h. cc;
          busy = λ h. omega arith;
        })

  next-IsLedger :
      (q : PeerStats D) (n : ℕ) (t : ℤ) (bursts : List ℕ)
      → q.incoming_requests_received ≡ suc n
      → q.incoming_request_burst_active ≡ true
      → D.le
          (ns_to_ms D (t -ℤ q.current_incoming_request_burst_last_mono_ns))
          (k_incoming_request_burst_gap_ms D)
        ≡ false
      → IsLedger (counting n q) bursts
      → IsLedger (burst_view (note_incoming_request_burst q t)) (closed q bursts)
  unfolding note_incoming_request_burst
  next-IsLedger q n t bursts c e far l =
      let k = flush-IsLedger q n bursts e l in
      simp (e, far)
        (record {
          samples = k.samples;
          total = omega (arith, k.total, k.idle (flush_inactive q), flush-requests q, c);
          positive = k.positive;
          timed = k.timed;
          gaps = omega (
            arith,
            l.gaps,
            flush-gaps q,
            length-push_back bursts q.current_incoming_request_burst_size,
            length-push_back {0}
                (flush_incoming_request_burst q).incoming_request_burst_idle_gap_ms_samples
                (ns_to_ms D (t -ℤ q.current_incoming_request_burst_last_mono_ns)),
          );
          idle = λ h. cc;
          busy = λ h. omega arith;
        })

  -- One more request, and the burst that it starts or extends.
  pub burst-IsAccounted :
      (q : PeerStats D) (n : ℕ) (t : ℤ) (bursts : List ℕ)
      → q.incoming_requests_received ≡ suc n
      → IsLedger (counting n q) bursts
      → IsAccounted (note_incoming_request_burst q t)
  burst-IsAccounted q n t bursts c l = elim (Bool-cases q.incoming_request_burst_active) [
    | inr e ↦ (bursts, first-IsLedger q n t bursts c e l)
    | inl e ↦
        elim (Bool-cases (
          D.le (ns_to_ms D (t -ℤ q.current_incoming_request_burst_last_mono_ns))
            (k_incoming_request_burst_gap_ms D))) [
              | inl near ↦ (bursts, more-IsLedger q n t bursts c e near l)
              | inr far ↦ (closed q bursts, next-IsLedger q n t bursts c e far l)
            ]
  ]
