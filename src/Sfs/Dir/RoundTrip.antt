-- ===== src/Sfs/Dir/RoundTrip.antt =====
-- `sfs_dir_unlink` and `sfs_dir_link`, and the searches after them.
use cse_9201_os.Common.{
  ℕ, ◌+◌, ◌*◌, ◌/◌, ◌%◌, ◌^◌, ◌≤◌, ◌<◌, ◌≡◌, refl, ap, sym, ◌∙◌, ◌≢◌, ◌⊎◌, true, not, ◌&&◌, List,
  [], length, Option, none, some, get_or, ◌==◌, arith, le→ltb_false, ne→==_false, eq→==, ℕ_discrete,
}
use cse_9201_os.Common.Strings.{same_name, same_name_refl}
use cse_9201_os.Common.Calls.{returns}
use cse_9201_os.Uio.{Uio, mk_kuio, uio_write}
use cse_9201_os.Sfs.Bmap.Read.{tree_block}
use cse_9201_os.Sfs.Io.Writes.{over_block}
use cse_9201_os.Sfs.{Sv}
use cse_9201_os.Sfs.Io.{Machine, Memory, Io}
use cse_9201_os.Sfs.Dir.{Found, sfs_writedir, sfs_dir_link, sfs_dir_unlink, sfs_dir_findname}
use cse_9201_os.Sfs.Dir.Entries.{entry_ino, entry_name}
use cse_9201_os.Sfs.Dir.Find.{
  IsSmallFile, holds, slots_of, free_slots, last_slot, found_in, nothing_found, outcome,
  sfs_dir_findname_lem,
}
use cse_9201_os.Sfs.Dir.Buffer.{IsEntryAt}
use cse_9201_os.Sfs.Dir.Change.{IsOwn, changed, changed-IsSmallFile, writedir_lem}
use cse_9201_os.Sfs.Dir.Local.{IsName, filled, filled_bytes, filled_ino, filled_name}
use cse_9201_os.Sfs.Dir.Links.{
  without, freed_slots, search_freed, slots-without, slots-single, slots-none,
}
use cse_9201_os.Sfs.Dir.Slots.{ino_self, name_self, ino_other, name_other}

-- A directory of `n` slots, and a local entry that is not over `iobuf`.
pub record IsDirectory (k : Machine) (v : Sv) (sd n : ℕ) : Type 0 where
  pub file : IsSmallFile v
  pub is_dir : v.sv_i.sfi_type ≡ 2
  pub size : v.sv_i.sfi_size ≡ n * 64
  pub apart : (sd + 64 ≤ k.iobuf) ⊎ (k.iobuf + 512 ≤ sd)

abbrev pub dir_world : Sv → Memory → Uio → Io
dir_world v mem uio = record { sv = v; mem = mem; uio = uio }

-- a search that found slot `i`
abbrev pub hit_at : ℕ → ℕ → Option ℕ → Found
hit_at ino' i free = record { found = true; ino = some ino'; slot = some i; emptyslot = free }

-- what a search finds in a directory
abbrev pub search_in : Sv → List ℕ → ℕ → Option Found
search_in v slots n = found_in v nothing_found slots (free_slots v n 0)

module _ (k : Machine) (v : Sv) (sd n : ℕ) (dir : IsDirectory k v sd n) (mem : Memory) (uio : Uio)
    (i : ℕ) (in_dir : i < n) (own : IsOwn v (i * 64 / 512)) where
  filled-IsEntryAt :
      (ino : ℕ) (name : List ℕ)
      → ((q : ℕ) → get_or name q 0 < 256)
      → IsEntryAt k (filled mem sd ino name) sd
  filled-IsEntryAt ino name small = record {
    apart = dir.apart;
    bytes = filled_bytes mem sd ino name small;
  }

  zero_bytes : (q : ℕ) → get_or {A = ℕ} [] q 0 < 256
  zero_bytes q = omega arith

  module _ (ino : ℕ) (name : List ℕ) (small : (q : ℕ) → get_or name q 0 < 256) where
    -- the directory with the entry in slot `i`
    abbrev relinked : Sv
    relinked =
        changed k v dir.file (filled mem sd ino name) sd i (filled-IsEntryAt ino name small) own
          (omega (arith, dir.size))

    relinked-IsDirectory : IsDirectory k relinked sd n
    relinked-IsDirectory = record {
      file =
          changed-IsSmallFile k v dir.file (filled mem sd ino name) sd i
            (filled-IsEntryAt ino name small) own (omega (arith, dir.size));
      is_dir = dir.is_dir;
      size = dir.size;
      apart = dir.apart;
    }

    relinked_ino : ino < 2 ^ 32 → entry_ino relinked i ≡ ino
    relinked_ino h =
        ino_self k v dir.file (filled mem sd ino name) sd i (filled-IsEntryAt ino name small) own
          (omega (arith, dir.size))
        ∙ filled_ino mem sd ino name h

    -- The other slots hold the names that they held.
    relinked_other :
        (other : List ℕ) (j : ℕ) → j < n → j ≢ i → holds relinked other j ≡ holds v other j
    relinked_other other j h ne =
        let e = filled-IsEntryAt ino name small in
        let in_file : i * 64 + 64 ≤ v.sv_i.sfi_size = omega (arith, dir.size) in
        let lt : j < 1144 = omega (arith, dir.size, dir.file.fits) in
        ap (λ x. not (x == 0) && same_name (entry_name relinked j) other)
          (ino_other k v dir.file (filled mem sd ino name) sd i e own in_file j ne lt)
        ∙ ap (λ l. not (entry_ino v j == 0) && same_name l other)
            (name_other k v dir.file (filled mem sd ino name) sd i e own in_file j ne lt)

  -- In a directory that needs no double indirect block, `sfs_dir_unlink` of a slot whose block is the
  -- directory's own returns. The directory stays well formed and the slot is free. A search for any
  -- name then finds the slot other than this one that held the name before, with the inode number
  -- that it had, and the last slot that was free or is freed; it finds none where no other slot held
  -- the name, and panics where two did.
  pub sfs_dir_unlink_lem :
      (name : List ℕ)
      → (v' : Sv) × (m m' : Memory) × (u u' : Uio) × (sfs_dir_unlink k sd i (dir_world v mem uio)
          ≡ returns tt (dir_world v' m u))
        × IsDirectory k v' sd n
        × (entry_ino v' i ≡ 0)
        × (sfs_dir_findname k sd name (dir_world v' m u)
            ≡ outcome
                (found_in v nothing_found (without i (slots_of v name n 0)) (freed_slots v i n 0))
                (dir_world v' m' u'))
  unfolding sfs_dir_unlink
  sfs_dir_unlink_lem name =
      let v' : Sv = relinked 0 [] zero_bytes in
      let local : Memory = filled mem sd 0 [] in
      let m : Memory = over_block k v local sd (tree_block v (i * 64 / 512)) (i * 64 % 512) 64 in
      let u : Uio = mk_kuio (sd + 64) 0 (i * 64 + 64) uio_write in
      let dir' = relinked-IsDirectory 0 [] zero_bytes in
      let (m', u', found) =
        sfs_dir_findname_lem k v' dir'.file sd name n m u dir'.is_dir dir'.size in
      let free = relinked_ino 0 [] zero_bytes (omega arith) in
      let held : (j : ℕ) → j < 0 + n → holds v' name j ≡ (not (j == i) && holds v name j) = λ j h.
        elim (ℕ_discrete j i) [
          | yes here ↦
              ap (holds v' name) here
              ∙ ap (λ x. not (x == 0) && same_name (entry_name v' i) name) free
              ∙ sym (ap (λ t. not t && holds v name j) (eq→== j i here))
          | no other ↦
              relinked_other 0 [] zero_bytes name j (omega arith) other
              ∙ sym (ap (λ t. not t && holds v name j) (ne→==_false j i other))
        ] in
      let numbers : (j : ℕ) → j < n → j ≢ i → entry_ino v' j ≡ entry_ino v j = λ j h ne.
        ino_other k v dir.file local sd i (filled-IsEntryAt 0 [] zero_bytes) own
          (omega (arith, dir.size)) j ne (omega (arith, dir.size, dir.file.fits)) in
      (
        v',
        m,
        m',
        u,
        u',
        writedir_lem k v dir.file local sd i (filled-IsEntryAt 0 [] zero_bytes) own
            (omega (arith, dir.size)) uio,
        dir',
        free,
        found
            ∙ ap (λ l. outcome (search_in v' l n) (dir_world v' m' u'))
                (slots-without v v' name i n 0 held)
            ∙ ap (λ o. outcome o (dir_world v' m' u')) (search_freed v v' name i n free numbers),
      )

  -- the end of `sfs_dir_link`, and a search
  link_search :
      (name : List ℕ) (ino : ℕ)
      → IsName name
      → 0 < ino
      → ino < 2 ^ 32
      → slots_of v name n 0 ≡ []
      → (v' : Sv) × (m m' : Memory) × (u u' : Uio) × (sfs_writedir k sd i
            (dir_world v (filled mem sd ino name) uio)
          ≡ returns tt (dir_world v' m u))
        × IsDirectory k v' sd n
        × (sfs_dir_findname k sd name (dir_world v' m u)
            ≡ returns (hit_at ino i (last_slot none (free_slots v' n 0))) (dir_world v' m' u'))
  link_search name ino ok pos word absent =
      let v' : Sv = relinked ino name ok.bytes in
      let local : Memory = filled mem sd ino name in
      let e = filled-IsEntryAt ino name ok.bytes in
      let in_file : i * 64 + 64 ≤ v.sv_i.sfi_size = omega (arith, dir.size) in
      let m : Memory = over_block k v local sd (tree_block v (i * 64 / 512)) (i * 64 % 512) 64 in
      let u : Uio = mk_kuio (sd + 64) 0 (i * 64 + 64) uio_write in
      let dir' = relinked-IsDirectory ino name ok.bytes in
      let (m', u', found) =
        sfs_dir_findname_lem k v' dir'.file sd name n m u dir'.is_dir dir'.size in
      let number : entry_ino v' i ≡ ino = relinked_ino ino name ok.bytes word in
      let named : entry_name v' i ≡ name =
        name_self k v dir.file local sd i e own in_file ∙ filled_name mem sd ino name ok in
      let held : (j : ℕ) → j < 0 + n → holds v' name j ≡ (j == i) = λ j h. elim (ℕ_discrete j i) [
        | yes here ↦
            ap (holds v' name) here
            ∙ ap (λ x. not (x == 0) && same_name (entry_name v' i) name) number
            ∙ ap (λ t. not t && same_name (entry_name v' i) name) (ne→==_false ino 0 (omega arith))
            ∙ ap (λ l. same_name l name) named
            ∙ same_name_refl name
            ∙ sym (eq→== j i here)
        | no other ↦
            relinked_other ino name ok.bytes name j (omega arith) other
            ∙ slots-none v name n 0 j absent (omega arith) h
            ∙ sym (ne→==_false j i other)
      ] in
      (
        v',
        m,
        m',
        u,
        u',
        writedir_lem k v dir.file local sd i e own in_file uio,
        dir',
        found
            ∙ ap (λ l. outcome (search_in v' l n) (dir_world v' m' u'))
                (slots-single v v' name i n 0 held (omega arith) (omega arith))
            ∙ ap
                (λ x.
                  returns (hit_at x i (last_slot none (free_slots v' n 0))) (dir_world v' m' u'))
                number,
      )

module _ (k : Machine) (v : Sv) (sd n : ℕ) (dir : IsDirectory k v sd n) (mem : Memory) (uio : Uio)
    (i : ℕ) (in_dir : i < n) (own : IsOwn v (i * 64 / 512)) where
  -- `sfs_dir_link` of a name that no slot holds, where `i` is the last free slot and its block is
  -- the directory's own, writes the entry there and hands back `i`. The directory stays well formed,
  -- and a search for the name then finds slot `i` with the inode number.
  pub link-findname :
      (name : List ℕ) (ino : ℕ)
      → IsName name
      → 0 < ino
      → ino < 2 ^ 32
      → slots_of v name n 0 ≡ []
      → last_slot none (free_slots v n 0) ≡ some i
      → (v' : Sv) × (m m' : Memory) × (u u' : Uio) × (sfs_dir_link k sd name ino
            (dir_world v mem uio)
          ≡ returns i (dir_world v' m u))
        × IsDirectory k v' sd n
        × (sfs_dir_findname k sd name (dir_world v' m u)
            ≡ returns (hit_at ino i (last_slot none (free_slots v' n 0))) (dir_world v' m' u'))
  unfolding sfs_dir_link
  link-findname name ino ok pos word absent free =
      let (m1, u1, e) = sfs_dir_findname_lem k v dir.file sd name n mem uio dir.is_dir dir.size in
      let (v', m, m', u, u', wrote, dir', found) =
        link_search k v sd n dir m1 u1 i in_dir own name ino ok pos word absent in
      let missing : sfs_dir_findname k sd name (dir_world v mem uio)
          ≡ returns (record nothing_found { emptyslot = some i }) (dir_world v m1 u1) =
        e
        ∙ ap (λ l. outcome (search_in v l n) (dir_world v m1 u1)) absent
        ∙ ap (λ o. returns (record nothing_found { emptyslot = o }) (dir_world v m1 u1)) free in
      (
        v',
        m,
        m',
        u,
        u',
        rw (missing, le→ltb_false 60 (length name + 1) (omega (arith, ok.short)), wrote) refl,
        dir',
        found,
      )
