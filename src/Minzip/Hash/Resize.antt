-- ===== src/Minzip/Hash/Resize.antt =====
-- `resizeHash` of minzip/Hash.c: the entries move to a new array.
use native.Mathlib.Nat.{mod-lt, one-le-pow, pow-suc}
use midnight_i9000_recovery.Common.{
  ℕ, suc, ◌+◌, ◌-◌, ◌*◌, ◌%◌, ◌^◌, ◌≤◌, ◌<◌, ◌≡◌, refl, sym, ◌∙◌, inl, inr, Bool, true, false, List,
  [], ◌∷◌, length, get_or, set, replicate, ◌==◌, Bool-cases, arith, bit_and, length-set, ==_iff,
  length-replicate, get_or-replicate, Option, some,
}
use midnight_i9000_recovery.Common.Bits.{bit_and-mask}
use midnight_i9000_recovery.Common.Run.{ok, ◌>>=◌, Returns}
use midnight_i9000_recovery.Minzip.Hash.{
  HashEntry, HashTable, blank, null, is_live, count_tombstones, probe_free, reinsert, rebuild,
  resize_hash, Stop,
}
use midnight_i9000_recovery.Minzip.Hash.Probe.{Ended, probe-Ended, probe_free-eq-probe}
use midnight_i9000_recovery.Minzip.Hash.Valid.{
  Arrives, IsReachable, IsReachable-set, IsStored, SameItems, free_ahead,
}
use midnight_i9000_recovery.Minzip.Hash.Counting.{
  live_count, live_weight, tally, dead_weight, copies, copy_weight, tally-set, tally-replicate,
  count_tombstones-eq-tally,
}

pub mask-lt : (k h : ℕ) → bit_and h (2 ^ k - 1) < 2 ^ k
mask-lt k h = rw (bit_and-mask k h) (mod-lt h (one-le-pow k 2 (omega arith)))

-- An array in the middle of the move: no tombstones, and every entry on its probing path.
pub record Fresh (k : ℕ) (es : List HashEntry) : Type 0 where
  pub width : length es ≡ 2 ^ k
  pub clean : tally dead_weight es ≡ 0
  pub reachable : IsReachable (2 ^ k) es

-- `es` has the live entries of `a` and of `b`.
pub record Joins (a b es : List HashEntry) : Type 0 where
  pub lives : live_count es ≡ live_count a + live_count b
  pub holds : (h d : ℕ) → is_live d ≡ true → copies h d es ≡ copies h d a + copies h d b

pub Arrives-Ended :
    (es : List HashEntry) (n : ℕ) (wanted : HashEntry → Bool) (i t : ℕ) (stop : Stop)
    → t < n
    → (r : Ended es n wanted i 0 t stop) → Arrives es n i ((i + r.steps) % n)
Arrives-Ended es n wanted i t stop lt r = record {
  steps = r.steps;
  within = omega (arith, r.within);
  lands = refl;
  full = λ v h. (r.passed v h).0;
}

-- One round of the loop: the slot found is empty, and writing it keeps the array in order.
module _ (k : ℕ) (fresh : List HashEntry) (ready : Fresh k fresh) (e : HashEntry)
    (live : is_live e.item ≡ true) where
  abbrev start : ℕ
  start = bit_and e.hash_value (2 ^ k - 1)

  record Placed (j : ℕ) : Type 0 where
    run : probe_free fresh (2 ^ k) (2 ^ k) start ≡ ok j
    inside : j < 2 ^ k
    empty : (get_or fresh j blank).item ≡ null
    path : Arrives fresh (2 ^ k) start j

  place : live_count fresh < 2 ^ k → (j : ℕ) × Placed j
  place room =
      let (t, near, free) =
        free_ahead fresh (2 ^ k) start ready.width (mask-lt k e.hash_value)
          (omega (arith, ready.clean)) in
      let (stop, run, r) =
        probe-Ended fresh (2 ^ k) (λ _. false) (2 ^ k) start 0 t ready.width
          (mask-lt k e.hash_value) free near in
      elim r.ending [
        | inl (ends, vacant) ↦ (
          (start + r.steps) % 2 ^ k,
          record {
            run =
                probe_free-eq-probe k fresh (2 ^ k) start 0 _ _ ready.width (mask-lt k e.hash_value)
                  (rw ends at run);
            inside = mod-lt (start + r.steps) (one-le-pow k 2 (omega arith));
            empty = vacant;
            path = Arrives-Ended fresh (2 ^ k) (λ _. false) start t stop near r;
          },
        )
        | inr (ends, full, never) ↦ absurd (cc)
      ]

  write : (j : ℕ) → Placed j → Fresh k (set fresh j e) × Joins fresh (e ∷ []) (set fresh j e)
  unfolding tally
  write j p =
      let inside : j < length fresh = omega (arith, ready.width, p.inside) in
      (
        record {
          width = length-set fresh j e ∙ ready.width;
          clean = ground (arith, tally-set dead_weight fresh j e inside, ready.clean, p.empty);
          reachable =
              IsReachable-set fresh j e inside (2 ^ k) (ground arith) (λ _. p.path) ready.reachable;
        },
        record {
          lives = ground (arith, tally-set live_weight fresh j e inside, p.empty);
          holds = λ h d q. ground (arith, tally-set (copy_weight h d) fresh j e inside, p.empty);
        },
      )

-- The whole loop: every live entry is written once, with its hash, and nothing else is.
pub reinsert-Joins :
    (k : ℕ) (es fresh : List HashEntry)
    → Fresh k fresh
    → live_count fresh + live_count es < 2 ^ k
    → Returns (reinsert (2 ^ k) es fresh) (λ out. Fresh k out × Joins fresh es out)
unfolding reinsert tally
reinsert-Joins k [] fresh ready room =
    (fresh, refl, (ready, record { lives = omega arith; holds = λ h d q. omega arith }))
reinsert-Joins k (e ∷ es) fresh ready room = elim (Bool-cases (is_live e.item)) [
  | inl live ↦
      let (j, p) = place k fresh ready e live (omega arith) in
      let (ready', joins) = write k fresh ready e live j p in
      let (out, run, (done, all)) =
        reinsert-Joins k es (set fresh j e) ready' (ground (arith, joins.lives)) in
      (
        out,
        rw (live, p.run, ◌>>=◌) run,
        (
          done,
          record {
            lives = omega (arith, joins.lives, all.lives);
            holds = λ h d q. omega (arith, joins.holds h d q, all.holds h d q);
          },
        ),
      )
  | inr dead ↦
      let (out, run, (done, all)) = reinsert-Joins k es fresh ready (ground arith) in
      (
        out,
        rw dead run,
        (
          done,
          record {
            lives = ground (arith, all.lives);
            holds = λ h d q. ground (arith, all.holds h d q);
          },
        ),
      )
]

abbrev pub Resized : HashTable → Option HashTable → Type 0
Resized t o =
    (t' : HashTable) × (o ≡ some t')
    × IsStored t'
    × (t'.table_size ≡ t.table_size * 2)
    × (t'.num_entries ≡ t.num_entries)
    × (t'.num_dead_entries ≡ 0)
    × SameItems t.entries t'.entries

pub blank_slots : (k : ℕ) → Fresh k (replicate (2 ^ k) blank)
blank_slots k = record {
  width = length-replicate (2 ^ k) blank;
  clean = tally-replicate dead_weight (2 ^ k) refl;
  reachable = λ j lt live. ground (arith, get_or-replicate (2 ^ k) j blank);
}

rebuild-Resized :
    (t : HashTable) (k : ℕ)
    → (s : IsStored t) → t.table_size * 2 ≡ 2 ^ k
    → t.num_entries < 2 ^ k
    → Returns (rebuild t (2 ^ k)) (Resized t)
unfolding rebuild
rebuild-Resized t k s double room =
    let vacant = tally-replicate live_weight (2 ^ k) refl in
    let (out, run, (ready, joins)) =
      reinsert-Joins k t.entries (replicate (2 ^ k) blank) (blank_slots k)
        (omega (arith, vacant, s.live)) in
    let clean : count_tombstones out ≡ 0 = count_tombstones-eq-tally out ∙ ready.clean in
    let t' : HashTable = record t { entries = out; table_size = 2 ^ k; num_dead_entries = 0 } in
    (
      some t',
      rw (run, ◌>>=◌, clean) refl,
      (
        t',
        refl,
        record {
          width = ready.width;
          log_size = k;
          power = refl;
          live = omega (arith, joins.lives, vacant, s.live);
          dead = clean;
          reachable = ready.reachable;
        },
        sym double,
        refl,
        refl,
        λ h d q.
            omega
              (arith, joins.holds h d q, tally-replicate (copy_weight h d) (2 ^ k) (ground arith)),
      ),
    )

rebuild_double :
    (t : HashTable)
    → IsStored t
    → t.num_entries ≤ t.table_size
    → Returns (rebuild t (t.table_size * 2)) (Resized t)
rebuild_double t s room =
    let double : t.table_size * 2 ≡ 2 ^ suc s.log_size =
      omega (arith, pow-suc 2 s.log_size, s.power) in
    let p : 1 ≤ 2 ^ s.log_size = one-le-pow s.log_size 2 (omega arith) in
    let (o, run, r) = rebuild-Resized t (suc s.log_size) s double (omega (arith, s.power)) in
    (o, rw double run, r)

-- `resizeHash` to twice the size succeeds and keeps the invariant and the items; it drops the
-- tombstones.
pub resize_hash-Resized :
    (t : HashTable)
    → IsStored t
    → t.num_entries ≤ t.table_size
    → Returns (resize_hash t (t.table_size * 2) true) (Resized t)
unfolding resize_hash
resize_hash-Resized t s room =
    let counted : (count_tombstones t.entries == t.num_dead_entries) ≡ true =
      (==_iff _ _).1 s.dead in
    rw (counted, ◌>>=◌) (rebuild_double t s room)
