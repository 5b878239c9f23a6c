-- ===== src/Sync/Transfer/Laws.antt =====
-- The bytes to transfer against the details of the plan's actions on the two sides.
use duet.Prelude.{
  ℕ, ◌+◌, ◌^◌, ◌%◌, map, is_some, List, [], ◌∷◌, if◌then◌else◌, ◌≡◌, refl, ◌∙◌, ok, err, arith,
}
use duet.Scan.Change.{Change, added, removed, modified}
use duet.Actions.{
  Action, local, remote, conflict, resolved_local, resolved_remote, identical, reverse,
  reverse_action,
}
use duet.Sync.Detail.{
  apply_detail_kind_for_change, apply_detail_kind, change_output_entry, action_output_entry,
}
use duet.Sync.Transfer.{sum, change_detail_bytes, action_detail_bytes, detail_transfer_bytes}

-- The size of the file that is written, for what has a detail.
abbrev detail_size : Change → ℕ
detail_size c =
    if is_some (apply_detail_kind_for_change c)
    then elim (change_output_entry c) [ ok e ↦ e.size | err _ ↦ 0 ]
    else 0

change_detail_bytes_lem : (c : Change) → change_detail_bytes c ≡ detail_size c
unfolding change_detail_bytes apply_detail_kind_for_change change_output_entry
change_detail_bytes_lem (added e) = ground arith
change_detail_bytes_lem (removed e) = refl
change_detail_bytes_lem (modified old new) = ground arith

-- The size of the file that an action writes on this side, for what has a detail here.
abbrev pub received : Action → ℕ
received a =
    if is_some (apply_detail_kind a)
    then elim (action_output_entry a) [ ok e ↦ e.size | err _ ↦ 0 ]
    else 0

action_detail_bytes-received :
    (a : Action) → action_detail_bytes a ≡ received a + received (reverse_action a)
unfolding action_detail_bytes apply_detail_kind action_output_entry reverse_action
action_detail_bytes-received (local c) = change_detail_bytes_lem c ∙ omega arith
action_detail_bytes-received (remote c) = change_detail_bytes_lem c ∙ omega arith
action_detail_bytes-received (conflict l r) = omega arith
action_detail_bytes-received (identical l r) = omega arith
action_detail_bytes-received (resolved_local l r c) = change_detail_bytes_lem c ∙ omega arith
action_detail_bytes-received (resolved_remote l r c) = change_detail_bytes_lem c ∙ omega arith

wrapped_sums :
    (h1 h2 r1 r2 : ℕ)
    → ((h1 + h2) + (r1 + r2) % 2 ^ 64) % 2 ^ 64 ≡ ((h1 + r1) % 2 ^ 64 + (h2 + r2) % 2 ^ 64) % 2 ^ 64
wrapped_sums h1 h2 r1 r2 = omega arith

-- The bytes counted for a plan are, in 64 bits, those of the files that this side receives by it
-- and those of the files that the other side receives by the reversed plan.
pub detail_transfer_bytes-reverse :
    (actions : List Action)
    → detail_transfer_bytes actions
      ≡ (sum (map received actions) + sum (map received (reverse actions))) % 2 ^ 64
unfolding detail_transfer_bytes sum reverse
detail_transfer_bytes-reverse [] = refl
detail_transfer_bytes-reverse (a ∷ actions) =
    rw (action_detail_bytes-received a, detail_transfer_bytes-reverse actions)
      (wrapped_sums (received a) (received (reverse_action a)) (sum (map received actions))
        (sum (map received (reverse actions))))
