-- ===== src/Constant/ManagementError/Table/Backups.antt =====
-- The codes of `impl ManagementError` in src/constant.rs that speak of backups,
-- group by group, each with the text that `translate_error_enum` has for it.
use pgmoneta_mcp.Prelude.{[], ◌∷◌}
use pgmoneta_mcp.Constant.ManagementError.Table.Row.{ErrorTable}

abbrev pub general_errors : ErrorTable
general_errors =
    (1, "Bad request payload") ∷ (2, "Unknown command") ∷ (3, "Memory allocation failure") ∷ []

abbrev pub backup_errors : ErrorTable
backup_errors =
    (100, "Backup: invalid request")
    ∷ (101, "Backup: WAL error")
    ∷ (102, "Backup: another active process happening")
    ∷ (103, "Backup: no backups available")
    ∷ (104, "Backup: no child process")
    ∷ (105, "Backup: child already exists")
    ∷ (106, "Backup: setup failed")
    ∷ (107, "Backup: execution failed")
    ∷ (108, "Backup: teardown failed")
    ∷ (109, "Backup: network error")
    ∷ (110, "Backup: server offline")
    ∷ (111, "Backup: server not found")
    ∷ (112, "Backup: no fork")
    ∷ (113, "Backup: error")
    ∷ []

abbrev pub incremental_backup_errors : ErrorTable
incremental_backup_errors =
    (200, "Incremental backup: setup failed")
    ∷ (201, "Incremental backup: execution failed")
    ∷ (202, "Incremental backup: teardown failed")
    ∷ []

abbrev pub list_backup_errors : ErrorTable
list_backup_errors =
    (300, "List backup: internal deque creation failed")
    ∷ (301, "List backup: failed to retrieve backups")
    ∷ (302, "List backup: invalid JSON value")
    ∷ (303, "List backup: network error")
    ∷ (304, "List backup: no server")
    ∷ (305, "List backup: no fork")
    ∷ (306, "List backup: invalid sort option")
    ∷ (307, "List backup: error")
    ∷ []

abbrev pub delete_errors : ErrorTable
delete_errors =
    (400, "Delete: setup failed")
    ∷ (401, "Delete: execution failed")
    ∷ (402, "Delete: teardown failed")
    ∷ (403, "Delete: no server")
    ∷ (404, "Delete: no fork")
    ∷ (405, "Delete: network error")
    ∷ (406, "Delete: error")
    ∷ []

abbrev pub delete_backup_errors : ErrorTable
delete_backup_errors =
    (500, "Delete backup: setup failed")
    ∷ (501, "Delete backup: execution failed")
    ∷ (502, "Delete backup: teardown failed")
    ∷ (503, "Delete: another active process happening")
    ∷ (504, "Delete backup: no backups available")
    ∷ (505, "Delete backup: backup not found")
    ∷ (506, "Delete backup: backup is retained")
    ∷ (507, "Delete backup: rollup failed")
    ∷ (508, "Delete backup: full backup required")
    ∷ (509, "Delete backup: error")
    ∷ []

abbrev pub restore_errors : ErrorTable
restore_errors =
    (600, "Restore: no backup available")
    ∷ (601, "Restore: no disk available")
    ∷ (602, "Restore: already active")
    ∷ (603, "Restore: no server")
    ∷ (604, "Restore: setup failed")
    ∷ (605, "Restore: execution failed")
    ∷ (606, "Restore: teardown failed")
    ∷ (607, "Restore: no fork")
    ∷ (608, "Restore: network error")
    ∷ (609, "Restore: error")
    ∷ []

abbrev pub combine_errors : ErrorTable
combine_errors =
    (700, "Combine: setup failed")
    ∷ (701, "Combine: execution failed")
    ∷ (702, "Combine: teardown failed")
    ∷ []

abbrev pub verify_errors : ErrorTable
verify_errors =
    (800, "Verify: no server")
    ∷ (801, "Verify: setup failed")
    ∷ (802, "Verify: execution failed")
    ∷ (803, "Verify: teardown failed")
    ∷ (804, "Verify: no fork")
    ∷ (805, "Verify: network error")
    ∷ (806, "Verify: error")
    ∷ []

abbrev pub archive_errors : ErrorTable
archive_errors =
    (900, "Archive: no backup available")
    ∷ (901, "Archive: no server")
    ∷ (902, "Archive: already active")
    ∷ (903, "Archive: setup failed")
    ∷ (904, "Archive: execution failed")
    ∷ (905, "Archive: teardown failed")
    ∷ (906, "Archive: no fork")
    ∷ (907, "Archive: network error")
    ∷ (908, "Archive: error")
    ∷ []
