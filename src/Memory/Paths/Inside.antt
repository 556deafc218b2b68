-- ===== src/Memory/Paths/Inside.antt =====
-- A path that is let through names a note of the vault (src/assistant/tools_sdk/_memory_core.py).
use xone_assistant.Prelude.{
  ◌≡◌, refl, sym, ◌∙◌, ◌==◌, arith, guard-some, Option-cases, Bool, true, false, not, ◌||◌,
  Bool-cases, none, some, List, [], ◌∷◌, ◌++◌, inl, inr, Text, codes, text_eq, any, starts_with,
  text_eq_sound,
}
use xone_assistant.Memory.Paths.{
  Disk, is_excluded, path_parts, path_name, is_markdown, relative_to, is_reserved, if_inside,
  check_link, check_parts, validate_path, vault_rel_eligible,
}

eq_true : (b : Bool) → not b ≡ false → b ≡ true
eq_true true h = refl
eq_true false h = absurd (cc (h))

relative_to_sound :
    (vault full below : List Text) → relative_to vault full ≡ some below → full ≡ vault ++ below
unfolding relative_to
relative_to_sound [] full below h = cc (h)
relative_to_sound (part ∷ vault) [] below h = absurd (cc (h))
relative_to_sound (part ∷ vault) (part' ∷ full) below h = elim (Bool-cases (text_eq part part')) [
  | inl e ↦
      let same = text_eq_sound part part' e in
      let rest = relative_to_sound vault full below (rw e at h) in cc (same, rest)
  | inr e ↦ let h' : none ≡ some below = rw e at h in absurd (cc (h'))
]

-- What a path has to be, apart from where it leads.
abbrev pub IsNotePath : List Text → Type 0
IsNotePath parts =
    (any (text_eq (codes "..")) parts ≡ false)
    × (is_markdown (path_name parts) ≡ true)
    × (starts_with (codes "_") (path_name parts) ≡ false)
    × (is_reserved parts ≡ false)

-- And where: the link is none, and it resolves to something below the vault.
abbrev pub LeadsInside : Disk → List Text → List Text → Type 0
LeadsInside disk parts full =
    (disk.is_symlink (disk.vault ++ parts) ≡ false)
    × (disk.resolve (disk.vault ++ parts) ≡ full)
    × ((below : List Text) × (full ≡ disk.vault ++ below))

if_inside_sound :
    (disk : Disk) (full full' : List Text)
    → if_inside disk full (relative_to disk.vault full) ≡ some full'
    → (full ≡ full') × ((below : List Text) × (full' ≡ disk.vault ++ below))
if_inside_sound disk full full' h = elim (Option-cases (relative_to disk.vault full)) [
  | inl out ↦ let h' : none ≡ some full' = rw out at h in absurd (cc (h'))
  | inr (below, found) ↦
      let h' : some full ≡ some full' = rw found at h in
      let same : full ≡ full' = cc (h') in
      (same, (below, sym same ∙ relative_to_sound disk.vault full below found))
]

check_link_sound :
    (disk : Disk) (parts full : List Text)
    → check_link disk (disk.vault ++ parts) ≡ some full
    → LeadsInside disk parts full
check_link_sound disk parts full h =
    let raw = disk.vault ++ parts in
    let (plain, inside) = guard-some (disk.is_symlink raw) _ full h in
    let (same, below) = if_inside_sound disk (disk.resolve raw) full inside in (plain, same, below)

check_parts_sound :
    (disk : Disk) (parts full : List Text)
    → check_parts disk parts ≡ some full
    → IsNotePath parts × LeadsInside disk parts full
unfolding check_parts
check_parts_sound disk parts full h =
    let (down, h1) = guard-some (any (text_eq (codes "..")) parts) _ full h in
    let (suffix, h2) = guard-some (not (is_markdown (path_name parts))) _ full h1 in
    let (moc, h3) = guard-some (starts_with (codes "_") (path_name parts)) _ full h2 in
    let (reserved, h4) = guard-some (is_reserved parts) _ full h3 in
    (
      (down, eq_true (is_markdown (path_name parts)) suffix, moc, reserved),
      check_link_sound disk parts full h4,
    )

-- A path that is let through has no `..`, ends in .md, is no MOC file, does not begin in a reserved
-- directory, is no symbolic link, and resolves to something below the vault.
pub validate_path_sound :
    (disk : Disk) (rel : Text) (full : List Text)
    → validate_path disk rel ≡ some full
    → IsNotePath (path_parts rel) × LeadsInside disk (path_parts rel) full
unfolding validate_path
validate_path_sound disk [] full h = absurd (cc (h))
validate_path_sound disk (c ∷ rel) full h =
    let (_, h') = guard-some (c == b'/' || c == b'~') _ full h in
    check_parts_sound disk (path_parts (c ∷ rel)) full h'

-- The parts behind the first.
abbrev pub behind_first : List Text → List Text
behind_first [] = []
behind_first (first ∷ rest) = rest

eligible-behind :
    (parts : List Text)
    → IsNotePath parts
    → vault_rel_eligible parts ≡ not (any is_excluded (behind_first parts))
unfolding vault_rel_eligible
eligible-behind [] h = refl
eligible-behind (first ∷ rest) (_, _, moc, reserved) =
    let plain : is_excluded first ≡ false = ground (arith, reserved) in ground (arith, plain, moc)

-- A path that is let through is one that a reindex keeps exactly when no part behind the first is
-- an excluded directory: only the first part is checked.
pub validate_path-eligible :
    (disk : Disk) (rel : Text) (full : List Text)
    → validate_path disk rel ≡ some full
    → vault_rel_eligible (path_parts rel) ≡ not (any is_excluded (behind_first (path_parts rel)))
validate_path-eligible disk rel full h =
    eligible-behind (path_parts rel) (validate_path_sound disk rel full h).0
