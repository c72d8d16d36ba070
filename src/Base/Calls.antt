-- ===== src/Base/Calls.antt =====
-- The loops that repeat a system call until every byte is through: write in FileUtil::SetContent
-- and pread in FileUtil::GetPosLen (server/Util.hpp), and send in backup::Start (CliBackupLog.hpp).
use Prim.Native.Nat.{ℕ, suc, ◌≤◌, ◌<◌}
use mathlib.Core.Path.{◌≡◌, refl, sym, ap, ◌∙◌}
use mathlib.Core.Logic.{inl, inr}
use mathlib.Core.Bool.{Bool, true, false}
use mathlib.Core.List.{List, [], ◌∷◌, ◌++◌, append-nil, append_assoc}
use native.Mathlib.Omega.{arith}
use asyn_log_system_cloud_st.Base.Tests.{◌==◌, if◌then◌else◌, Bool-cases}
use asyn_log_system_cloud_st.Base.Lists.{
  length, length-drop, take, drop, take-append-drop, is_empty, All,
}
use asyn_log_system_cloud_st.Base.Text.{Bytes}

-- What one call reports; a negative count with EINTR is `interrupted`.
pub data Call : Type 0 where
  moved : ℕ → Call
  interrupted : Call
  failed : Call

-- The loop on the bytes that are through and those that are left. The list of calls ends where the
-- next call fails. The result is what got through, and whether that is all.
unfoldable pub transfer : List Call → Bytes → Bytes → Bytes × Bool
transfer [] done left = (done, is_empty left)
transfer (failed ∷ calls) done left = (done, is_empty left)
transfer (interrupted ∷ calls) done left =
    let rest = transfer calls done left in if is_empty left then (done, true) else rest
transfer (moved count ∷ calls) done left =
    let rest = transfer calls (done ++ take count left) (drop count left) in
    if is_empty left then (done, true) else if count == 0 then (done, false) else rest

-- `done` is the start of `whole`.
abbrev pub IsStart : Bytes → Bytes → Type 0
IsStart whole done = (rest : Bytes) × (done ++ rest ≡ whole)

-- The bytes got through in order, and all of them when the loop succeeds.
pub record IsMoved (whole : Bytes) (result : Bytes × Bool) : Type 0 where
  pub begins : IsStart whole result.0
  pub complete : result.1 ≡ true → result.0 ≡ whole

nothing_left :
    (whole done left : Bytes) → done ++ left ≡ whole → is_empty left ≡ true → done ≡ whole
nothing_left whole done [] e h = sym (append-nil done) ∙ e
nothing_left whole done (b ∷ left) e h = absurd cc

stopped-IsMoved :
    (whole done left : Bytes) → done ++ left ≡ whole → IsMoved whole (done, is_empty left)
stopped-IsMoved whole done left e = record {
  begins = (left, e);
  complete = λ h. nothing_left whole done left e h;
}

pub transfer-IsMoved :
    (calls : List Call) (whole done left : Bytes)
    → done ++ left ≡ whole
    → IsMoved whole (transfer calls done left)
unfolding transfer
transfer-IsMoved [] whole done left e = stopped-IsMoved whole done left e
transfer-IsMoved (failed ∷ calls) whole done left e = stopped-IsMoved whole done left e
transfer-IsMoved (interrupted ∷ calls) whole done [] e = stopped-IsMoved whole done [] e
transfer-IsMoved (interrupted ∷ calls) whole done (b ∷ left) e =
    transfer-IsMoved calls whole done (b ∷ left) e
transfer-IsMoved (moved count ∷ calls) whole done [] e = stopped-IsMoved whole done [] e
transfer-IsMoved (moved count ∷ calls) whole done (b ∷ left) e =
    let next =
      transfer-IsMoved calls whole (done ++ take count (b ∷ left)) (drop count (b ∷ left)) (
        append_assoc done (take count (b ∷ left)) (drop count (b ∷ left))
        ∙ (ap (λ x. done ++ x) (take-append-drop count (b ∷ left)) ∙ e)) in
    elim (Bool-cases (count == 0)) [
      | inl h ↦ rw h (record { begins = (b ∷ left, e); complete = λ t. absurd cc })
      | inr h ↦ rw h next
    ]

-- A call that moves something or is to be repeated.
abbrev pub Gets : Call → Type 0
Gets (moved count) = 0 < count
Gets interrupted = Unit
Gets failed = ⊥

-- How many calls move something.
abbrev pub moving : List Call → ℕ
moving [] = 0
moving (moved count ∷ calls) = suc (moving calls)
moving (interrupted ∷ calls) = moving calls
moving (failed ∷ calls) = moving calls

transfer_ends :
    (calls : List Call) (done left : Bytes)
    → All Gets calls
    → length left ≤ moving calls
    → (transfer calls done left).1 ≡ true
unfolding transfer
transfer_ends [] done [] h n = refl
transfer_ends [] done (b ∷ left) h n = absurd (omega arith)
transfer_ends (failed ∷ calls) done left h n = elim h.0 [ ]
transfer_ends (interrupted ∷ calls) done [] h n = refl
transfer_ends (interrupted ∷ calls) done (b ∷ left) h n = transfer_ends calls done (b ∷ left) h.1 n
transfer_ends (moved count ∷ calls) done [] h n = refl
transfer_ends (moved count ∷ calls) done (b ∷ left) h n = ground (
  arith,
  transfer_ends calls (done ++ take count (b ∷ left)) (drop count (b ∷ left)) h.1
      (omega (arith, n, h.0, length-drop count (b ∷ left))),
  h.0,
)

-- As many calls as there are bytes, each of which moves one at least, are enough.
pub transfer_lem :
    (calls : List Call) (text : Bytes)
    → All Gets calls
    → length text ≤ moving calls
    → transfer calls [] text ≡ (text, true)
transfer_lem calls text h n =
    let ends = transfer_ends calls [] text h n in
    let same = (transfer-IsMoved calls text [] text refl).complete ends in
    pair (transfer calls [] text) same ends
  where
    pair : (r : Bytes × Bool) → r.0 ≡ text → r.1 ≡ true → r ≡ (text, true)
    pair (done, ok) e f = cc
