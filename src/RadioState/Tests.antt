-- ===== src/RadioState/Tests.antt =====
-- The radio's state at concrete inputs.
use ak.Base.{◌≡◌, refl, List, [], ◌∷◌, arith}
use ak.Base.Int.{pos, negsuc}
use ak.Base.Text.{Bytes, codes, print_padded, padded, decimal}
use ak.RadioState.{initial}
use ak.RadioState.Op.{Op, main_volume, cw_speed, active_vfo, nr_level, apply, apply_all}
use ak.RadioState.Laws.{apply-assign, assign}
use ak.RadioState.Invariant.{IsValid, initial-IsValid, apply_all-IsValid}
use ak.RadioState.Cat.{parse_cat_command}
use ak.RadioState.Reports.{
  smeter_b, mode_a, data_reverse, print_report, digit, says, parse_cat_command-print_report,
}

abbrev ops : List Op
ops =
    main_volume (pos 250)
    ∷ cw_speed (negsuc 3)
    ∷ active_vfo (pos 1)
    ∷ nr_level (pos 1) (pos 0) (pos 99)
    ∷ []

apply_all-IsValid_example : IsValid (apply_all ops initial)
apply_all-IsValid_example = apply_all-IsValid ops initial initial-IsValid

apply-assign_example :
    (apply (main_volume (pos 250)) initial).0 ≡ assign (main_volume (pos 250)) initial
apply-assign_example = apply-assign (main_volume (pos 250)) initial refl

abbrev commands : List Bytes
commands =
    codes "FA00007040000;" ∷ codes "MD3;" ∷ codes "XX" ∷ codes "PCabc;" ∷ codes "SM00012;" ∷ []

parse_cat_command-print_report_example :
    parse_cat_command (print_report (smeter_b (negsuc 6))) initial
    ≡ apply (says (smeter_b (negsuc 6))) initial
parse_cat_command-print_report_example =
    parse_cat_command-print_report (smeter_b (negsuc 6)) initial (omega arith)

-- Some reports in the radio's words.
reports_printed :
    (print_report (smeter_b (pos 12)) ≡ codes "SM10012;")
    × (print_report (mode_a data_reverse) ≡ codes "MD9;")
unfolding print_report print_padded padded decimal digit
reports_printed = (refl, refl)
