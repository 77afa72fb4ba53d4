-- ===== src/Common/Words.antt =====
-- strtok(): the words of a text between separators.
use Prim.Native.Nat.{ℕ}
use mathlib.Core.Path.{◌≡◌, refl, sym, ap, ◌∙◌}
use mathlib.Core.Bool.{Bool, true, false}
use mathlib.Core.List.{List, [], ◌∷◌, ◌++◌, append_assoc, append-nil}
use midnight_i9000_recovery.Common.Tests.{if◌then◌else◌}
use midnight_i9000_recovery.Common.Text.{Bytes}

-- The results of strtok() one after the other, where `is_separator` tells the separators; `word` is
-- what has been read of the next.
unfoldable pub words_by : (ℕ → Bool) → Bytes → Bytes → List Bytes
words_by is_separator [] [] = []
words_by is_separator (w ∷ ws) [] = (w ∷ ws) ∷ []
words_by is_separator [] (c ∷ cs) =
    let skipped = words_by is_separator [] cs in
    let more = words_by is_separator (c ∷ []) cs in if is_separator c then skipped else more
words_by is_separator (w ∷ ws) (c ∷ cs) =
    let next = words_by is_separator [] cs in
    let more = words_by is_separator ((w ∷ ws) ++ (c ∷ [])) cs in
    if is_separator c then (w ∷ ws) ∷ next else more

module _ (is_separator : ℕ → Bool) where
  -- No byte of the text ends a word.
  abbrev pub NoSeparator : Bytes → Type 0
  NoSeparator [] = Unit
  NoSeparator (c ∷ cs) = (is_separator c ≡ false) × NoSeparator cs

  -- A text that is one word.
  abbrev pub IsWord : Bytes → Type 0
  IsWord [] = ⊥
  IsWord (c ∷ cs) = NoSeparator (c ∷ cs)

  abbrev pub AllWords : List Bytes → Type 0
  AllWords [] = Unit
  AllWords (w ∷ ws) = IsWord w × AllWords ws

  words_by-in_word :
      (d : ℕ) (w : ℕ) (ws cs rest : Bytes)
      → is_separator d ≡ true
      → NoSeparator cs
      → words_by is_separator (w ∷ ws) (cs ++ d ∷ rest)
        ≡ (w ∷ ws ++ cs) ∷ words_by is_separator [] rest
  unfolding words_by
  words_by-in_word d w ws [] rest ends h =
      rw ends (ap (λ x. (w ∷ x) ∷ words_by is_separator [] rest) (sym (append-nil ws)))
  words_by-in_word d w ws (c ∷ cs) rest ends h = rw (h.0) (
      words_by-in_word d w (ws ++ (c ∷ [])) cs rest ends h.1
      ∙ ap (λ x. (w ∷ x) ∷ words_by is_separator [] rest) (append_assoc ws (c ∷ []) cs))

  -- A word and a separator in front of a text.
  pub words_by-word :
      (d : ℕ) (w rest : Bytes)
      → is_separator d ≡ true
      → IsWord w
      → words_by is_separator [] (w ++ d ∷ rest) ≡ w ∷ words_by is_separator [] rest
  unfolding words_by
  words_by-word d [] rest ends h = absurd h
  words_by-word d (c ∷ cs) rest ends h = rw (h.0) (words_by-in_word d c [] cs rest ends h.1)

-- Words with a separator behind each.
abbrev pub joined : ℕ → List Bytes → Bytes
joined d [] = []
joined d (w ∷ ws) = w ++ d ∷ joined d ws

pub words_by-joined :
    (is_separator : ℕ → Bool) (d : ℕ) (ws : List Bytes)
    → is_separator d ≡ true
    → AllWords is_separator ws
    → words_by is_separator [] (joined d ws) ≡ ws
unfolding words_by
words_by-joined is_separator d [] ends h = refl
words_by-joined is_separator d (w ∷ ws) ends h =
    words_by-word is_separator d w (joined d ws) ends h.0
    ∙ ap (λ x. w ∷ x) (words_by-joined is_separator d ws ends h.1)
