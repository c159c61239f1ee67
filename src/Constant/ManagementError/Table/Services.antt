-- ===== src/Constant/ManagementError/Table/Services.antt =====
-- The codes of `impl ManagementError` in src/constant.rs that speak of the other services,
-- group by group, each with the text that `translate_error_enum` has for it.
use pgmoneta_mcp.Prelude.{[], ◌∷◌}
use pgmoneta_mcp.Constant.ManagementError.Table.Row.{ErrorTable}

abbrev pub status_errors : ErrorTable
status_errors = (1000, "Status: no fork") ∷ (1001, "Status: network error") ∷ []

abbrev pub status_details_errors : ErrorTable
status_details_errors =
    (1100, "Status details: no fork") ∷ (1101, "Status details: network error") ∷ []

abbrev pub retain_errors : ErrorTable
retain_errors =
    (1200, "Retention: no backup available")
    ∷ (1201, "Retention: no server")
    ∷ (1202, "Retention: no fork")
    ∷ (1203, "Retention: network error")
    ∷ (1204, "Retention: error")
    ∷ []

abbrev pub expunge_errors : ErrorTable
expunge_errors =
    (1300, "Expunge: no backup available")
    ∷ (1301, "Expunge: no server")
    ∷ (1302, "Expunge: no fork")
    ∷ (1303, "Expunge: network error")
    ∷ (1304, "Expunge: error")
    ∷ []

abbrev pub decrypt_errors : ErrorTable
decrypt_errors =
    (1400, "Decrypt: file not found")
    ∷ (1401, "Decrypt: no fork")
    ∷ (1402, "Decrypt: network error")
    ∷ (1403, "Decrypt: error")
    ∷ []

abbrev pub encrypt_errors : ErrorTable
encrypt_errors =
    (1500, "Encrypt: file not found")
    ∷ (1501, "Encrypt: no fork")
    ∷ (1502, "Encrypt: network error")
    ∷ (1503, "Encrypt: error")
    ∷ []

abbrev pub gzip_errors : ErrorTable
gzip_errors =
    (1600, "Gzip: file not found")
    ∷ (1601, "Gzip: no fork")
    ∷ (1602, "Gzip: network error")
    ∷ (1603, "Gzip: error")
    ∷ []

abbrev pub zstd_errors : ErrorTable
zstd_errors =
    (1700, "Zstd: file not found")
    ∷ (1701, "Zstd: no fork")
    ∷ (1702, "Zstd: network error")
    ∷ (1703, "Zstd: error")
    ∷ []

abbrev pub lz4_errors : ErrorTable
lz4_errors =
    (1800, "LZ4: file not found")
    ∷ (1801, "LZ4: no fork")
    ∷ (1802, "LZ4: network error")
    ∷ (1803, "LZ4: error")
    ∷ []

abbrev pub bzip2_errors : ErrorTable
bzip2_errors =
    (1900, "Bzip2: file not found")
    ∷ (1901, "Bzip2: no fork")
    ∷ (1902, "Bzip2: network error")
    ∷ (1903, "Bzip2: error")
    ∷ []

abbrev pub decompress_errors : ErrorTable
decompress_errors = (2000, "Decompress: no fork") ∷ (2001, "Decompress: unknown format") ∷ []

abbrev pub compress_errors : ErrorTable
compress_errors = (2100, "Compress: no fork") ∷ (2101, "Compress: unknown format") ∷ []

abbrev pub info_errors : ErrorTable
info_errors =
    (2200, "Info: no backup available")
    ∷ (2201, "Info: no server")
    ∷ (2202, "Info: no fork")
    ∷ (2203, "Info: network error")
    ∷ (2204, "Info: error")
    ∷ []

abbrev pub retention_errors : ErrorTable
retention_errors =
    (2302, "Retention: setup failed")
    ∷ (2303, "Retention: execution failed")
    ∷ (2304, "Retention: teardown failed")
    ∷ (2305, "Retention: error")
    ∷ []

abbrev pub wal_shipping_errors : ErrorTable
wal_shipping_errors =
    (2402, "WAL shipping: setup failed")
    ∷ (2403, "WAL shipping: execution failed")
    ∷ (2404, "WAL shipping: teardown failed")
    ∷ []

abbrev pub annotate_errors : ErrorTable
annotate_errors =
    (2500, "Annotate: no backup available")
    ∷ (2501, "Annotate: no server")
    ∷ (2502, "Annotate: no fork")
    ∷ (2503, "Annotate: failed")
    ∷ (2504, "Annotate: network error")
    ∷ (2505, "Annotate: error")
    ∷ (2506, "Annotate: unknown action")
    ∷ []

abbrev pub conf_get_errors : ErrorTable
conf_get_errors =
    (2600, "Config get: no fork")
    ∷ (2602, "Config get: network error")
    ∷ (2603, "Config get: error")
    ∷ []

abbrev pub conf_set_errors : ErrorTable
conf_set_errors =
    (2700, "Config set: no fork")
    ∷ (2701, "Config set: no request")
    ∷ (2702, "Config set: missing key or value")
    ∷ (2703, "Config set: no response")
    ∷ (2704, "Config set: unknown configuration key")
    ∷ (2705, "Config set: unknown server")
    ∷ (2706, "Config set: network error")
    ∷ (2707, "Config set: error")
    ∷ []

abbrev pub mode_errors : ErrorTable
mode_errors =
    (2800, "Mode: no server")
    ∷ (2801, "Mode: no fork")
    ∷ (2802, "Mode: failed")
    ∷ (2803, "Mode: network error")
    ∷ (2804, "Mode: error")
    ∷ (2805, "Mode: unknown action")
    ∷ []
