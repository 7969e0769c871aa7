-- ===== src/Enrich/Results.antt =====
-- That `enrich_records_concurrent` of ingestor/crud.py returns.
use data_pipeline_async.Base.{nat_key}
use data_pipeline_async.Base.Dict.{Dict}
