-- ===== src/Applypatch/Rules.antt =====
-- Rules for what holds in the states through which the calls of applypatch/applypatch.c pass.
use midnight_i9000_recovery.Common.Run.{Run, Returns}
use midnight_i9000_recovery.Applypatch.Disk.{Stepped, World, perform, stepped, demand}
use midnight_i9000_recovery.Common.{
  ◌≡◌, refl, Bool, true, false, List, [], ◌∷◌, ◌++◌, Option, none, some, if◌then◌else◌,
}
use midnight_i9000_recovery.Common.Prog.{Prog, return, fail, ◌>>=◌, >>=-Returns}

abbrev pub Every : {S : Type 0} → (S → Type 0) → List S → Type 0
Every R [] = Unit
Every R (s ∷ ss) = R s × Every R ss

-- A call keeps to `R` while it runs and when it ends.
abbrev pub Kept : {S A : Type 0} → (S → Type 0) → Stepped S A → Type 0
Kept R st = Every R st.during × R st.after

module _ {S : Type 0} where
  pub Every-append :
      (R : S → Type 0) (xs ys : List S) → Every R xs → Every R ys → Every R (xs ++ ys)
  Every-append R [] ys h k = k
  Every-append R (x ∷ xs) ys (a, h) k = (a, Every-append R xs ys h k)

  pub Every-map :
      (P R : S → Type 0) → ((s : S) → P s → R s) → (xs : List S) → Every P xs → Every R xs
  Every-map P R f [] h = tt
  Every-map P R f (x ∷ xs) (a, h) = (f x a, Every-map P R f xs h)

  pub Kept-map :
      {A : Type 0} (P R : S → Type 0)
      → ((s : S) → P s → R s)
      → (st : Stepped S A) → Kept P st
      → Kept R st
  Kept-map P R f st (during, after) = (Every-map P R f st.during during, f st.after after)

module _ {S : Type 0} (R : S → Type 0) where
  -- `R` is true now, and was true in all the states before.
  abbrev pub Safe : World S → Type 0
  Safe w = R w.now × Every R w.passed

  -- All states are safe, and where the call succeeds, `D` is true of its value and the state.
  abbrev pub Post : {A : Type 0} → (A → S → Type 0) → Option A × World S → Type 0
  Post D (none, w) = Safe w
  Post D (some a, w) = D a w.now × Safe w

  pub stepped-Safe :
      {A : Type 0} (st : Stepped S A) (w : World S) → Safe w → Kept R st → Safe (stepped st w)
  stepped-Safe st w (here, before) (during, after) =
      (after, (here, Every-append R st.during w.passed during before))

  pub perform-Post :
      {A : Type 0} (D : A → S → Type 0) (op : S → Stepped S A) (w : World S)
      → Safe w
      → Kept R (op w.now)
      → D (op w.now).result (op w.now).after
      → Returns (perform op w) (Post D)
  perform-Post D op w safe kept d = (
    (some (op w.now).result, stepped (op w.now) w),
    refl,
    (d, stepped-Safe (op w.now) w safe kept),
  )

  pub return-Post :
      {A : Type 0} (D : A → S → Type 0) (a : A) (w : World S)
      → D a w.now
      → Safe w
      → Returns (return a w) (Post D)
  return-Post D a w d safe = ((some a, w), refl, (d, safe))

  pub fail-Post :
      {A : Type 0} (D : A → S → Type 0) (w : World S) → Safe w → Returns (fail {A = A} w) (Post D)
  fail-Post D w safe = ((none, w), refl, safe)

  pub bind-Post :
      {A B : Type 0} (D : A → S → Type 0) (E : B → S → Type 0) (m : Prog (World S) A)
      (f : A → Prog (World S) B) (w : World S)
      → Returns (m w) (Post D)
      → ((a : A) (w' : World S) → D a w'.now → Safe w' → Returns (f a w') (Post E))
      → Returns ((m >>= f) w) (Post E)
  bind-Post D E m f w first next =
      >>=-Returns {P = Post D} {Q = Post E} m f w first (λ w' safe. safe)
        (λ a w' h. next a w' h.0 h.1)

  -- A call that has to succeed; `D` may use that it did.
  pub demand-Post :
      (D : S → Type 0) (op : S → Stepped S Bool) (w : World S)
      → Safe w
      → Kept R (op w.now)
      → ((op w.now).result ≡ true → D (op w.now).after)
      → Returns (demand op w) (Post (λ _. D))
  demand-Post D op w safe kept d =
      bind-Post (λ b s. b ≡ true → D s) (λ _. D) (perform op)
        (λ succeeded. if succeeded then return tt else fail) w
        (perform-Post (λ b s. b ≡ true → D s) op w safe kept d) after
    where
      after :
          (b : Bool) (w' : World S)
          → (b ≡ true → D w'.now)
          → Safe w'
          → Returns ((if b then return tt else fail) w') (Post (λ _. D))
      after true w' d' safe' = return-Post (λ _. D) tt w' (d' refl) safe'
      after false w' d' safe' = fail-Post (λ _. D) w' safe'

  -- A weaker result.
  pub Post-map :
      {A : Type 0} (D E : A → S → Type 0) (run : Run (Option A × World S))
      → ((a : A) (s : S) → D a s → E a s)
      → Returns run (Post D)
      → Returns run (Post E)
  Post-map D E run f ((none, w), e, post) = ((none, w), e, post)
  Post-map D E run f ((some a, w), e, (d, safe)) = ((some a, w), e, (f a w.now d, safe))
