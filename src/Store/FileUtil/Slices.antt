-- ===== src/Store/FileUtil/Slices.antt =====
-- src/server/Util.hpp, FileUtil: what is read is exactly what was asked for, and what was written.
use asyn_log_system_cloud_st.Base.{
  ℕ, ◌+◌, ◌-◌, ◌≤◌, ◌≡◌, ◌⊎◌, refl, sym, ap, subst, ◌∙◌, true, false, Bool, Option, none, some, [],
  Bytes, length, length-drop, length-take, take, take_all, drop, IsU64, All, inl, inr, arith,
}
use asyn_log_system_cloud_st.Base.Calls.{
  transfer, IsMoved, transfer-IsMoved, Gets, moving, transfer_lem,
}
use asyn_log_system_cloud_st.Store.FileUtil.{
  ReadCalls, WriteCalls, after_reads, read_slice, get_pos_len, get_content, after_writes,
  set_content,
}

-- The calls work, and they are enough for `size` bytes.
abbrev pub ReadsAll : ℕ → ReadCalls → Type 0
ReadsAll size calls =
    (calls.opened ≡ true)
    × (calls.closed ≡ true)
    × All Gets calls.preads
    × (size ≤ moving calls.preads)

abbrev pub WritesAll : ℕ → WriteCalls → Type 0
WritesAll size calls =
    (calls.opened ≡ true)
    × (calls.synced ≡ true)
    × (calls.closed ≡ true)
    × All Gets calls.writes
    × (size ≤ moving calls.writes)

after_reads-some :
    (calls : ReadCalls) (whole : Bytes) (result : Bytes × Bool) (content : Bytes)
    → IsMoved whole result
    → after_reads calls result ≡ some content
    → content ≡ whole
unfolding after_reads
after_reads-some calls whole (done, true) content moved e =
    let same : done ≡ content = ground (arith, e) in sym same ∙ moved.complete refl
after_reads-some calls whole (done, false) content moved e = absurd cc

read_slice-some :
    (calls : ReadCalls) (file : Bytes) (position n : ℕ) (content : Bytes)
    → read_slice calls file position n ≡ some content
    → content ≡ take n (drop position file)
unfolding read_slice
read_slice-some calls file position n content e =
    let whole = take n (drop position file) in
    after_reads-some calls whole (transfer calls.preads [] whole) content
      (transfer-IsMoved calls.preads whole [] whole refl) (ground (arith, e))

get_pos_len_cases :
    (calls : ReadCalls) (file : Bytes) (position n : ℕ) (content : Bytes)
    → get_pos_len calls (some file) position n ≡ some content
    → (read_slice calls file position n ≡ some content)
      × (position ≤ length file)
      × (n ≤ length file - position)
unfolding get_pos_len
get_pos_len_cases calls file position n content e = ground arith

length-slice :
    (file : Bytes) (position n : ℕ)
    → n ≤ length file - position
    → length (take n (drop position file)) ≡ n
length-slice file position n h =
    omega (arith, length-take n (drop position file), length-drop position file)

-- Whatever the calls report, with short counts and interruptions anywhere: where GetPosLen
-- succeeds, the part that was asked for lies within the file, and what it returns is exactly that
-- part.
pub get_pos_len-some :
    (calls : ReadCalls) (file : Bytes) (position n : ℕ) (content : Bytes)
    → get_pos_len calls (some file) position n ≡ some content
    → (content ≡ take n (drop position file)) × (length content ≡ n) × (position + n ≤ length file)
get_pos_len-some calls file position n content e =
    let (read, start, fits) = get_pos_len_cases calls file position n content e in
    let same = read_slice-some calls file position n content read in
    (same, ap length same ∙ length-slice file position n fits, omega arith)

read_slice_all :
    (calls : ReadCalls) (file : Bytes) (n : ℕ)
    → ReadsAll (length (take n (drop 0 file))) calls
    → read_slice calls file 0 n ≡ some (take n file)
unfolding read_slice after_reads
read_slice_all calls file n (opened, closed, gets, enough) =
    ground (arith, opened, closed, transfer_lem calls.preads (take n file) gets enough)

pub get_content_lem :
    (calls : ReadCalls) (file : Bytes)
    → IsU64 (length file)
    → ReadsAll (length file) calls
    → get_content calls (some file) ≡ some file
unfolding get_content get_pos_len
get_content_lem calls file u reads =
    let whole : take (length file) file ≡ file = take_all (length file) file (omega arith) in
    let read =
      read_slice_all calls file (length file)
        (subst (λ f. ReadsAll (length f) calls) (sym whole) reads) in
    ground (arith, u, read, whole)

pub set_content_lem :
    (calls : WriteCalls) (file : Option Bytes) (content : Bytes)
    → WritesAll (length content) calls
    → set_content calls file content ≡ (some content, true)
unfolding set_content after_writes
set_content_lem calls file content (opened, synced, closed, gets, enough) =
    ground (arith, opened, synced, closed, transfer_lem calls.writes content gets enough)

-- When the calls work and are enough, however small the pieces that they move, and the length fits
-- in 64 bits, SetContent succeeds and GetContent then returns exactly what was written, whatever
-- the file held before.
pub get_content-set_content :
    (reads : ReadCalls) (writes : WriteCalls) (file : Option Bytes) (content : Bytes)
    → IsU64 (length content)
    → WritesAll (length content) writes
    → ReadsAll (length content) reads
    → ((set_content writes file content).1 ≡ true)
      × (get_content reads (set_content writes file content).0 ≡ some content)
get_content-set_content reads writes file content u w r =
    let written = set_content_lem writes file content w in
    (
      ap (λ x. x.1) written,
      ap (λ x. get_content reads x.0) written ∙ get_content_lem reads content u r,
    )

set_content-cases :
    (calls : WriteCalls) (file : Option Bytes) (content : Bytes)
    → (set_content calls file content ≡ (file, false))
      ⊎ (set_content calls file content ≡ after_writes calls (transfer calls.writes [] content))
unfolding set_content
set_content-cases calls file content = ground arith

after_writes-true :
    (calls : WriteCalls) (content : Bytes) (result : Bytes × Bool)
    → IsMoved content result
    → (after_writes calls result).1 ≡ true
    → (after_writes calls result).0 ≡ some content
unfolding after_writes
after_writes-true calls content (done, true) moved h = ap some (moved.complete refl)
after_writes-true calls content (done, false) moved h = absurd cc

-- A write that reports success has written everything.
pub set_content-true :
    (calls : WriteCalls) (file : Option Bytes) (content : Bytes)
    → (set_content calls file content).1 ≡ true
    → (set_content calls file content).0 ≡ some content
set_content-true calls file content h = elim (set_content-cases calls file content) [
  | inl e ↦ absurd (ground (arith, ap (λ x. x.1) e))
  | inr e ↦
      ap (λ x. x.0) e
      ∙ after_writes-true calls content (transfer calls.writes [] content)
          (transfer-IsMoved calls.writes content [] content refl) (sym (ap (λ x. x.1) e) ∙ h)
]

-- A read that succeeds has read everything.
pub get_content-some :
    (calls : ReadCalls) (file : Option Bytes) (content : Bytes)
    → get_content calls file ≡ some content
    → file ≡ some content
unfolding get_content
get_content-some calls none content e = absurd cc
get_content-some calls (some file) content e =
    let read : get_pos_len calls (some file) 0 (length file) ≡ some content = ground (arith, e) in
    let (same, size, fits) = get_pos_len-some calls file 0 (length file) content read in
    ap some (sym (same ∙ take_all (length file) file (omega arith)))
