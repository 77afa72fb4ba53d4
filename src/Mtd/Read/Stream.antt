-- ===== src/Mtd/Read/Stream.antt =====
-- mtd_read_data of mtdutils/mtdutils.c: the bytes of all calls, as a stream of the blocks read.
use midnight_i9000_recovery.Common.{
  ==_iff, drop-all, ℕ, ◌+◌, ◌-◌, ◌≤◌, ◌<◌, ◌≡◌, refl, sym, ◌∙◌, ap, true, ◌==◌, ltb, length, List,
  [], ◌∷◌, ◌++◌, take, drop, min, Option, none, some, inl, inr, arith, Bool-cases, take-drop,
  drop-drop, length-take, length-drop, append_assoc, append-nil,
}
use midnight_i9000_recovery.Common.Prog.{>>=-Returns}
use midnight_i9000_recovery.Common.Run
use midnight_i9000_recovery.Common.Run.{Run, ok, Returns}
use midnight_i9000_recovery.Common.Text.{Bytes}
use midnight_i9000_recovery.Mtd.Device.{IsFlash}
use midnight_i9000_recovery.Mtd.Write.{MtdPartition}
use midnight_i9000_recovery.Mtd.Read.{
  ReadDevice, ReadContext, read_block, next_block, from_buffer, refill,
}
use midnight_i9000_recovery.Mtd.Read.Block.{IsReadable, Found, read_block-Found}

-- The bytes of a list of blocks.
abbrev pub flat : List Bytes → Bytes
flat [] = []
flat (b ∷ bs) = b ++ flat bs

flat-append : (bs cs : List Bytes) → flat (bs ++ cs) ≡ flat bs ++ flat cs
flat-append [] cs = refl
flat-append (b ∷ bs) cs = simp (flat-append bs cs, append_assoc)

module _ {D : Type 0} (dev : ReadDevice D) (readable : IsReadable dev) (partition : MtdPartition)
    (flash : IsFlash dev.device partition.erase_size) (positive : 0 < partition.erase_size) where
  -- `read_block` gives these blocks, one call after the other.
  abbrev pub Blocks : D → List Bytes → D → Type 0
  Blocks d [] d' = d' ≡ d
  Blocks d (b ∷ bs) d' = (d1 : D) × (read_block dev partition d ≡ ok (some b, d1)) × Blocks d1 bs d'

  Blocks-append :
      (d d1 d2 : D) (bs cs : List Bytes) → Blocks d bs d1 → Blocks d1 cs d2 → Blocks d (bs ++ cs) d2
  Blocks-append d d1 d2 [] cs e h = rw (sym e) h
  Blocks-append d d1 d2 (b ∷ bs) cs (d3, e, rest) h = (d3, e, Blocks-append d3 d1 d2 bs cs rest h)

  -- A context between two calls.
  abbrev pub Ready : ReadContext D → Type 0
  Ready ctx =
      (ctx.partition ≡ partition)
      × (length ctx.buffer ≡ partition.erase_size)
      × (ctx.consumed ≤ partition.erase_size)

  -- The bytes of the buffer that no call has returned yet.
  abbrev pub pending : ReadContext D → Bytes
  pending ctx = drop ctx.consumed ctx.buffer

  -- `out` and the pending bytes after it are the pending bytes before and the blocks read since.
  abbrev pub Step : ReadContext D → Bytes → ReadContext D → Type 0
  Step ctx out ctx' =
      Ready ctx'
      × (bs : List Bytes) × Blocks ctx.fd bs ctx'.fd
      × (out ++ pending ctx' ≡ pending ctx ++ flat bs)

  pub Step-refl : (ctx : ReadContext D) → Ready ctx → Step ctx [] ctx
  Step-refl ctx ready = (ready, [], refl, sym (append-nil (pending ctx)))

  pub Step-trans :
      (c0 c1 c2 : ReadContext D) (out1 out2 : Bytes)
      → Step c0 out1 c1
      → Step c1 out2 c2
      → Step c0 (out1 ++ out2) c2
  Step-trans c0 c1 c2 out1 out2 (r1, bs, blocks1, e1) (r2, cs, blocks2, e2) = (
    r2,
    bs ++ cs,
    Blocks-append c0.fd c1.fd c2.fd bs cs blocks1 blocks2,
    append_assoc out1 out2 (pending c2)
        ∙ ap (λ z. out1 ++ z) e2
        ∙ sym (append_assoc out1 (pending c1) (flat cs))
        ∙ ap (λ z. z ++ flat cs) e1
        ∙ append_assoc (pending c0) (flat bs) (flat cs)
        ∙ ap (λ z. pending c0 ++ z) (sym (flat-append bs cs)),
  )

  -- A call that succeeds has delivered `out`, and `Q` holds of its result.
  abbrev pub Delivered :
      {A : Type 0}
      → ReadContext D
      → (A → Bytes)
      → (A → ReadContext D → Type 0)
      → Option A × ReadContext D
      → Type 0
  Delivered ctx out Q (none, ctx') = Unit
  Delivered ctx out Q (some a, ctx') = Step ctx (out a) ctx' × Q a ctx'

  next_block-eq :
      (ctx : ReadContext D)
      → next_block dev ctx
        ≡ Run.◌>>=◌ (read_block dev ctx.partition ctx.fd) (λ (r, d). ok (r, record ctx { fd = d }))
  unfolding next_block
  next_block-eq ctx = refl

  abbrev pub NextBlock : ReadContext D → Option Bytes × ReadContext D → Type 0
  NextBlock ctx (none, ctx') = Unit
  NextBlock ctx (some b, ctx') =
      (length b ≡ partition.erase_size)
      × (read_block dev partition ctx.fd ≡ ok (some b, ctx'.fd))
      × (ctx' ≡ record ctx { fd = ctx'.fd })

  pub next_block-NextBlock :
      (ctx : ReadContext D)
      → ctx.partition ≡ partition
      → Returns (next_block dev ctx) (NextBlock ctx)
  next_block-NextBlock ctx same =
      let (r, e, found) = read_block-Found dev readable partition flash ctx.fd positive in
      rw (next_block-eq ctx, ap (λ p. read_block dev p ctx.fd) same, e) (of_result r e found)
    where
      of_result :
          (r : Option Bytes × D)
          → read_block dev partition ctx.fd ≡ ok r
          → Found dev readable partition flash (dev.offset ctx.fd) ctx.fd r
          → Returns (ok (r.0, record ctx { fd = r.1 })) (NextBlock ctx)
      of_result (none, d) e found = ((none, record ctx { fd = d }), refl, tt)
      of_result (some b, d) e (kept, n, inside, found) =
          ((some b, record ctx { fd = d }), refl, (found.0, e, refl))

  pub used_up :
      (ctx : ReadContext D) → Ready ctx → ctx.consumed ≡ partition.erase_size → pending ctx ≡ []
  used_up ctx (same, full, inside) e = drop-all ctx.consumed ctx.buffer (omega arith)

  -- The bytes that one use of the buffer gives.
  abbrev pub share : ℕ → ReadContext D → ℕ
  share len ctx = min len (ctx.partition.erase_size - ctx.consumed)

  pub sizes : (ctx : ReadContext D) → Ready ctx → ctx.partition.erase_size ≡ partition.erase_size
  sizes ctx ready = ap MtdPartition.erase_size (ready.0)

  copied :
      (n : ℕ) (ctx : ReadContext D)
      → take n (drop ctx.consumed ctx.buffer) ++ drop (ctx.consumed + n) ctx.buffer
        ≡ pending ctx ++ []
  copied n ctx =
      ap (λ z. take n (pending ctx) ++ z) (sym (drop-drop n ctx.consumed ctx.buffer))
      ∙ take-drop n (pending ctx)
      ∙ sym (append-nil (pending ctx))

  pub from_buffer-Step :
      (len : ℕ) (ctx : ReadContext D)
      → Ready ctx
      → Step ctx (from_buffer dev len ctx).0 (from_buffer dev len ctx).1
        × (length (from_buffer dev len ctx).0 ≡ share len ctx)
        × ((from_buffer dev len ctx).1.consumed ≡ ctx.consumed + share len ctx)
  unfolding from_buffer
  from_buffer-Step len ctx ready =
      let size = sizes ctx ready in
      elim (Bool-cases (ltb ctx.consumed ctx.partition.erase_size)) [
        | inl left ↦ rw left (
          ((ready.0, ready.1, ground arith), [], refl, copied (share len ctx) ctx),
          length-take (share len ctx) (pending ctx)
              ∙ omega (arith, length-drop ctx.consumed ctx.buffer),
          refl,
        )
        | inr used ↦ rw used (Step-refl ctx ready, ground arith, ground arith)
      ]

  -- A block that goes to the caller, and one that goes into the buffer.
  pub taken :
      (ctx ctx' : ReadContext D) (b : Bytes)
      → Ready ctx
      → ctx.consumed ≡ partition.erase_size
      → NextBlock ctx (some b, ctx')
      → Step ctx b ctx' × (ctx'.consumed ≡ ctx.consumed)
  taken ctx ctx' b ready at_end (whole, read, same) =
      let e : pending ctx' ≡ [] = ap pending same ∙ used_up ctx ready at_end in
      (
        (
          (
            ap ReadContext.partition same ∙ ready.0,
            ap (λ c. length (ReadContext.buffer c)) same ∙ ready.1,
            omega (arith, ap ReadContext.consumed same),
          ),
          b ∷ [],
          (ctx'.fd, read, refl),
          ap (λ z. b ++ z) e ∙ ap (λ z. z ++ (b ++ [])) (sym (used_up ctx ready at_end)),
        ),
        ap ReadContext.consumed same,
      )

  pub stored :
      (ctx ctx' : ReadContext D) (b : Bytes)
      → Ready ctx
      → ctx.consumed ≡ partition.erase_size
      → NextBlock ctx (some b, ctx')
      → Step ctx [] (record ctx' { buffer = b; consumed = 0 })
  stored ctx ctx' b ready at_end (whole, read, same) = (
    (ap ReadContext.partition same ∙ ready.0, whole, omega arith),
    b ∷ [],
    (ctx'.fd, read, refl),
    sym (append-nil b) ∙ ap (λ z. z ++ (b ++ [])) (sym (used_up ctx ready at_end)),
  )

  pub refill-Delivered :
      (ctx : ReadContext D)
      → Ready ctx
      → ctx.consumed ≡ partition.erase_size
      → Returns (refill dev ctx) (Delivered ctx (λ u. []) (λ u ctx'. ctx'.consumed ≡ 0))
  unfolding refill
  refill-Delivered ctx ready at_end =
      let c : (ctx.consumed == ctx.partition.erase_size) ≡ true =
        (==_iff ctx.consumed ctx.partition.erase_size).1 (at_end ∙ sym (sizes ctx ready)) in
      rw c (
        >>=-Returns (next_block dev) _ ctx (next_block-NextBlock ctx ready.0) (λ c h. h)
          (λ b c1 next. (
            (some tt, record c1 { buffer = b; consumed = 0 }),
            refl,
            (stored ctx c1 b ready at_end next, refl),
          )))
