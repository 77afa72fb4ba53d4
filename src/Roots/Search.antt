-- ===== src/Roots/Search.antt =====
-- volume_for_path of roots.c.
use midnight_i9000_recovery.Common.{
  Bool, true, false, ◌&&◌, ◌≡◌, refl, ap, List, [], ◌∷◌, ◌++◌, length, drop, Option, none, some,
  if◌then◌else◌, arith,
}
use midnight_i9000_recovery.Common.Text.{Bytes, has_prefix}
use midnight_i9000_recovery.Roots.{Volume, ends_here, volume_for_path}

abbrev pub StartsWithSlash : Bytes → Type 0
StartsWithSlash [] = Unit
StartsWithSlash (c ∷ cs) = c ≡ 47

-- The path is the mount point, or goes on with a slash behind it.
abbrev pub IsUnder : Bytes → Bytes → Type 0
IsUnder mount path = (rest : Bytes) × (path ≡ mount ++ rest) × StartsWithSlash rest

abbrev over_path : Bytes → Bytes → Bool
over_path mount path = has_prefix mount path && ends_here (drop (length mount) path)

over_path-IsUnder : (mount path : Bytes) → over_path mount path ≡ true → IsUnder mount path
over_path-IsUnder [] [] h = ([], refl, tt)
over_path-IsUnder [] (c ∷ cs) h = (c ∷ cs, refl, ground arith)
over_path-IsUnder (m ∷ ms) [] h = absurd (cc)
over_path-IsUnder (m ∷ ms) (c ∷ cs) h =
    let (rest, e, slash) = over_path-IsUnder ms cs (ground arith) in
    let same : c ≡ m = ground arith in (rest, rw (same, e), slash)

IsUnder-over_path : (mount path : Bytes) → IsUnder mount path → over_path mount path ≡ true
IsUnder-over_path mount path (rest, e, slash) = rw e (at mount rest slash)
  where
    at : (mount rest : Bytes) → StartsWithSlash rest → over_path mount (mount ++ rest) ≡ true
    at [] [] h = refl
    at [] (c ∷ cs) h = ground arith
    at (m ∷ ms) rest h = let more = at ms rest h in ground arith

-- No mount point of the volumes is over the path.
abbrev pub NoneOver : List Volume → Bytes → Type 0
NoneOver [] path = Unit
NoneOver (v ∷ vs) path = (IsUnder v.mount_point path → ⊥) × NoneOver vs path

abbrev pub FirstOver : List Volume → Bytes → Option Volume → Type 0
FirstOver vs path none = NoneOver vs path
FirstOver vs path (some v) =
    (before : List Volume) × (after : List Volume) × (vs ≡ before ++ v ∷ after)
    × NoneOver before path
    × IsUnder v.mount_point path

FirstOver-cons :
    (v : Volume) (vs : List Volume) (path : Bytes) (r : Option Volume)
    → (IsUnder v.mount_point path → ⊥)
    → FirstOver vs path r
    → FirstOver (v ∷ vs) path r
FirstOver-cons v vs path none not_over h = (not_over, h)
FirstOver-cons v vs path (some w) not_over (before, after, e, none_before, over) =
    (v ∷ before, after, ap (λ us. v ∷ us) e, (not_over, none_before), over)

-- volume_for_path returns the first volume whose mount point is the path or a directory above it,
-- and NULL only if there is none.
pub volume_for_path-FirstOver :
    (vs : List Volume) (path : Bytes) → FirstOver vs path (volume_for_path vs path)
unfolding volume_for_path
volume_for_path-FirstOver [] path = tt
volume_for_path-FirstOver (v ∷ vs) path =
    by_test (over_path v.mount_point path) refl (volume_for_path-FirstOver vs path)
  where
    by_test :
        (b : Bool)
        → over_path v.mount_point path ≡ b
        → FirstOver vs path (volume_for_path vs path)
        → FirstOver (v ∷ vs) path (if b then some v else volume_for_path vs path)
    by_test true e rest = ([], vs, refl, tt, over_path-IsUnder v.mount_point path e)
    by_test false e rest =
        FirstOver-cons v vs path (volume_for_path vs path)
          (λ under. absurd (let t = IsUnder-over_path v.mount_point path under in cc)) rest
