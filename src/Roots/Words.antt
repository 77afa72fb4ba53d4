-- ===== src/Roots/Words.antt =====
-- The words of a line of /etc/recovery.fstab.
use midnight_i9000_recovery.Common.{
  append_assoc, length-append, length, ℕ, zero, suc, ◌+◌, ◌-◌, ◌==◌, ◌≤◌, false, ◌≡◌, refl, ◌∙◌, ap,
  List, [], ◌∷◌, ◌++◌, arith,
}
use midnight_i9000_recovery.Common.CString.{fgets}
use midnight_i9000_recovery.Common.Text.{Bytes, is_space}
use midnight_i9000_recovery.Common.Words.{words_by, words_by-word, NoSeparator}
use midnight_i9000_recovery.Roots.{is_delimiter, words_of}

-- No byte of the text ends a word, nor is skipped at the start of a line.
abbrev pub NoSpace : Bytes → Type 0
NoSpace [] = Unit
NoSpace (c ∷ cs) = (is_space c ≡ false) × NoSpace cs

abbrev pub IsWord : Bytes → Type 0
IsWord [] = ⊥
IsWord (c ∷ cs) = NoSpace (c ∷ cs)

abbrev pub AllWords : List Bytes → Type 0
AllWords [] = Unit
AllWords (w ∷ ws) = IsWord w × AllWords ws

-- Words with a space behind each, and the end of the line.
abbrev pub line_of : List Bytes → Bytes
line_of [] = 10 ∷ []
line_of (w ∷ ws) = w ++ 32 ∷ line_of ws

no_delimiter : (cs : Bytes) → NoSpace cs → NoSeparator is_delimiter cs
no_delimiter [] h = tt
no_delimiter (c ∷ cs) h = (ground arith, no_delimiter cs h.1)

pub words_of-line_of : (ws : List Bytes) → AllWords ws → words_of (line_of ws) ≡ ws
unfolding words_of words_by
words_of-line_of [] h = refl
words_of-line_of ([] ∷ ws) h = absurd (h.0)
words_of-line_of ((c ∷ cs) ∷ ws) h =
    words_by-word is_delimiter 32 (c ∷ cs) (line_of ws) refl (no_delimiter (c ∷ cs) h.0)
    ∙ ap (λ x. (c ∷ cs) ∷ x) (words_of-line_of ws h.1)

-- fgets() reads a word, and then what it reads of the rest.
fgets-word :
    (w tail line rest : Bytes) (n m : ℕ)
    → NoSpace w
    → fgets n tail ≡ (line, rest)
    → m ≡ length w + n
    → fgets m (w ++ tail) ≡ (w ++ line, rest)
unfolding fgets
fgets-word [] tail line rest n m h e size = let same : m ≡ n = omega arith in rw same e
fgets-word (c ∷ cs) tail line rest n zero h e size = absurd (omega arith)
fgets-word (c ∷ cs) tail line rest n (suc m) h e size =
    let inside : (c == 10) ≡ false = ground (arith, h.0) in
    rw (inside, fgets-word cs tail line rest n m h.1 e (omega arith)) refl

fgets-space :
    (n : ℕ) (tail line rest : Bytes)
    → fgets n tail ≡ (line, rest)
    → fgets (suc n) (32 ∷ tail) ≡ (32 ∷ line, rest)
unfolding fgets
fgets-space n tail line rest e = rw e refl

fgets-newline : (n : ℕ) (rest : Bytes) → fgets (suc n) (10 ∷ rest) ≡ (10 ∷ [], rest)
unfolding fgets
fgets-newline n rest = refl

-- It reads a line for which it has room.
pub fgets-line_of :
    (ws : List Bytes) (rest : Bytes) (m : ℕ)
    → AllWords ws
    → length (line_of ws) ≤ m
    → fgets m (line_of ws ++ rest) ≡ (line_of ws, rest)
fgets-line_of [] rest zero h room = absurd (omega arith)
fgets-line_of [] rest (suc m) h room = fgets-newline m rest
fgets-line_of (w ∷ ws) rest m h room =
    let size = length-append w (32 ∷ line_of ws) in
    let n = m - length w - 1 in
    ap (fgets m) (append_assoc w (32 ∷ line_of ws) rest)
    ∙ fgets-word w (32 ∷ line_of ws ++ rest) (32 ∷ line_of ws) rest (suc n) m (word w h.0)
        (fgets-space n (line_of ws ++ rest) (line_of ws) rest
          (fgets-line_of ws rest n h.1 (omega (arith, size))))
        (omega (arith, size))
  where
    word : (w : Bytes) → IsWord w → NoSpace w
    word [] h = absurd h
    word (c ∷ cs) h = h
