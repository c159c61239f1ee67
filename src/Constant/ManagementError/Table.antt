-- ===== src/Constant/ManagementError/Table.antt =====
-- All arms of the match of `ManagementError::translate_error_enum` in src/constant.rs, in order.
pub mod Row
mod Backups
mod Services
pub use Row.{ErrorTable}
use pgmoneta_mcp.Prelude.{◌++◌}
use Backups.{
  general_errors, backup_errors, incremental_backup_errors, list_backup_errors, delete_errors,
  delete_backup_errors, restore_errors, combine_errors, verify_errors, archive_errors,
}
use Services.{
  status_errors, status_details_errors, retain_errors, expunge_errors, decrypt_errors,
  encrypt_errors, gzip_errors, zstd_errors, lz4_errors, bzip2_errors, decompress_errors,
  compress_errors, info_errors, retention_errors, wal_shipping_errors, annotate_errors,
  conf_get_errors, conf_set_errors, mode_errors,
}

abbrev pub error_table : ErrorTable
error_table =
    general_errors
    ++ (backup_errors
        ++ (incremental_backup_errors
            ++ (list_backup_errors
                ++ (delete_errors
                    ++ (delete_backup_errors
                        ++ (restore_errors
                            ++ (combine_errors
                                ++ (verify_errors
                                    ++ (archive_errors
                                        ++ (status_errors
                                            ++ (status_details_errors
                                                ++ (retain_errors
                                                    ++ (expunge_errors
                                                        ++ (decrypt_errors
                                                            ++ (encrypt_errors
                                                            ++ (gzip_errors
                                                            ++ (zstd_errors
                                                            ++ (lz4_errors
                                                            ++ (bzip2_errors
                                                            ++ (decompress_errors
                                                            ++ (compress_errors
                                                            ++ (info_errors
                                                            ++ (retention_errors
                                                            ++ (wal_shipping_errors
                                                            ++ (annotate_errors
                                                            ++ (conf_get_errors
                                                            ++ (conf_set_errors
                                                            ++ (mode_errors))))))))))))))))))))))))))))
