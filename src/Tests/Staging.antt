-- ===== src/Tests/Staging.antt =====
-- Staging waves.
use duet.Prelude.{some, sym, subst, true, arith, false, List, [], ◌∷◌, All, length, ok, ◌≡◌, refl}
use duet.Ord.{nat_ord}
use duet.Ord.Lexicographic.{list_ord, cmp_list, starts_with}
use duet.FilePath.{component_ord, cmp_component, rank}
use duet.Scan.Change.{added}
use duet.Actions.{Action, local}
use duet.Sync.Detail.{apply_detail_kind_for_change, change_output_entry}
use duet.Orchestrator.Strategy.{validate_wave_capacity}
use duet.Orchestrator.Strategy.Laws.{plan_staging_waves-validate_wave_capacity}
use duet.Sync.Staging.{
  StagingFilesystemInfo, StagingPolicy, budget, limited, reserve_of, bytes, StagingBudget,
  validate_staging_budget, checked_staging_add, is_replacement, action_has_directory_change,
  action_has_directory_to_nondirectory_change, add_output, add_action, add_actions,
  validate_staging_group_side, staging_dependency_group,
}
use duet.Sync.Staging.Waves.{
  StagingWavePlan, out_of_order_after, check_actions, span_under, range, next_group, collect_groups,
  staging_wave_from_group, add_totals, join_wave, pack_group, place_group, pack_groups,
  plan_staging_waves,
}
use duet.Sync.Staging.Waves.Cover.{wave_indices, plan_staging_waves-wave_indices}
use duet.Sync.Staging.Waves.Fit.{WaveFits}
use duet.Sync.Staging.Waves.Counted.{WaveCounts}
use duet.Sync.Staging.Waves.Filled.{plan_staging_waves_lem}
use duet.Tests.Samples.{path_a, path_b, file_entry}

-- Room for one file of the samples, of 10 bytes, in a wave.
abbrev one_file : StagingBudget
one_file = record {
  reserve_bytes = 0;
  usable_bytes = 100;
  budget_bytes = 15;
  cow_clone_supported = false;
}

abbrev two_files : List Action
two_files = local (added (file_entry path_a 1)) ∷ local (added (file_entry path_b 1)) ∷ []

abbrev two_waves : StagingWavePlan
two_waves = record {
  waves =
      record {
        action_indices = 0 ∷ [];
        local_side = record {
          reconstructed_bytes = 10;
          staged_regular_outputs = 1;
          exceeds_budget = false;
          requires_cow_capacity = false;
        };
        remote_side = record {
          reconstructed_bytes = 0;
          staged_regular_outputs = 0;
          exceeds_budget = false;
          requires_cow_capacity = false;
        };
      }
      ∷ record {
        action_indices = 1 ∷ [];
        local_side = record {
          reconstructed_bytes = 10;
          staged_regular_outputs = 1;
          exceeds_budget = false;
          requires_cow_capacity = false;
        };
        remote_side = record {
          reconstructed_bytes = 0;
          staged_regular_outputs = 0;
          exceeds_budget = false;
          requires_cow_capacity = false;
        };
      }
      ∷ [];
  local_totals = record { reconstructed_bytes = 20; staged_regular_outputs = 2 };
  remote_totals = record { reconstructed_bytes = 0; staged_regular_outputs = 0 };
}

two_files-planned : plan_staging_waves one_file one_file two_files ≡ ok two_waves
unfolding list_ord cmp_list component_ord cmp_component nat_ord rank starts_with
    apply_detail_kind_for_change change_output_entry validate_staging_budget checked_staging_add
    is_replacement action_has_directory_change action_has_directory_to_nondirectory_change
    add_output add_action add_actions validate_staging_group_side staging_dependency_group
    out_of_order_after check_actions span_under range next_group collect_groups
    staging_wave_from_group add_totals join_wave pack_group place_group pack_groups
    plan_staging_waves
two_files-planned = refl

plan_staging_waves_lem_example :
    All (WaveCounts two_files) two_waves.waves × All (WaveFits one_file one_file) two_waves.waves
plan_staging_waves_lem_example =
    plan_staging_waves_lem one_file one_file two_files two_waves two_files-planned

plan_staging_waves-wave_indices_example : wave_indices two_waves.waves ≡ range 0 (length two_files)
plan_staging_waves-wave_indices_example =
    plan_staging_waves-wave_indices one_file one_file two_files two_waves two_files-planned

-- The space and the policy that give that room.
abbrev disk : StagingFilesystemInfo
disk = record {
  total_bytes = 100;
  available_bytes = 100;
  available_inodes = 1;
  block_size = 1;
  cow_clone_supported = false;
}

abbrev policy : StagingPolicy
policy = record { limit_bytes = some 15; reserve = bytes 0 }

one_file-budget : budget policy disk ≡ one_file
unfolding budget limited reserve_of
one_file-budget = refl

two_files-disk :
    plan_staging_waves (budget policy disk) (budget policy disk) two_files ≡ ok two_waves
two_files-disk =
    subst (λ b. plan_staging_waves b b two_files ≡ ok two_waves) (sym one_file-budget)
      two_files-planned

plan_staging_waves-validate_wave_capacity_example :
    All (λ w. validate_wave_capacity w policy disk disk true ≡ ok tt) two_waves.waves
plan_staging_waves-validate_wave_capacity_example =
    plan_staging_waves-validate_wave_capacity policy disk disk two_files two_waves true
      two_files-disk ((omega arith, omega arith), ((omega arith, omega arith), tt))
