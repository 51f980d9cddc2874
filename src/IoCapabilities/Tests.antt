-- ===== src/IoCapabilities/Tests.antt =====
-- Witness for the io capabilities.
use bluetoe.Shared.{◌≡◌, true, false, arith}
use bluetoe.IoCapabilities.{
  pairing_yes_no, pairing_numeric_output, get_io_capabilities, select_legacy_pairing_algorithm,
  select_lesc_pairing_algorithm,
}
use bluetoe.IoCapabilities.Table.{table_algorithm, select_pairing_algorithm_table}

select_pairing_algorithm_table_example :
    (select_legacy_pairing_algorithm pairing_numeric_output pairing_yes_no 4
      ≡ table_algorithm false (get_io_capabilities pairing_numeric_output pairing_yes_no) 4)
    × (select_lesc_pairing_algorithm pairing_numeric_output pairing_yes_no 4
        ≡ table_algorithm true (get_io_capabilities pairing_numeric_output pairing_yes_no) 4)
select_pairing_algorithm_table_example =
    select_pairing_algorithm_table pairing_numeric_output pairing_yes_no 4 (omega arith)
