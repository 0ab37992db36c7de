-- ===== src/Lib.antt =====
-- DFIP, the data and facts integration platform: an uploaded campaign workbook becomes staged rows,
-- a processing run turns the rows of a batch into facts of a campaign and a day, and publishers look
-- after the configuration and the runs.
--
-- Parts and where they are modelled:
--   * packages/config/dfip_config/rate_cards.py, resolve.py, catalog_identity.py and catalog.py: the
--     rate cards, the spreadsheet lookups, the ownership of version ids and the uploaded versions, in
--     Config/RateCards, Config/Resolve, Config/Identity and Config/Catalog;
--   * packages/core/dfip_core/ingest/store.py and progress.py: the files, batches, rows and runs of
--     `InMemoryIngestStore`, in Ingest/Records, Ingest/Store and Ingest/Progress;
--   * packages/core/dfip_core/transform: the cells of a row (extract.py), the derived columns
--     (derive.py), the cost (cost.py), the binding of configuration (labels.py), the fact (fact.py), the
--     fact store (store.py), the engine (engine.py) and the reconciliation (reconcile.py), each in the
--     file of Transform/ with its name, the fact store in Transform/FactStore;
--   * packages/api/dfip_api/publisher_session.py with its row in packages/db/dfip_db/
--     publisher_session.py: the publisher's lease, in Api/PublisherSession;
--   * packages/api/dfip_api/publication_store.py: publications and their merged history, in
--     Api/PublicationStore;
--   * packages/api/dfip_api/limits.py: the attempts and the bodies that the API takes, in Api/Limits;
--   * packages/api/dfip_api/identity_store.py and membership.py, with the rows of packages/db/dfip_db/
--     identity.py and rls.py: accounts, memberships and what they make of a token, in Api/Identity and
--     Api/Membership;
--   * packages/api/dfip_api/excel_grant.py with its row in packages/db/dfip_db/excel_grant.py: the
--     grants of workbook tokens, in Api/ExcelGrant with Tokens, Restoring, Binding and Minting;
--   * packages/analytics/dfip_analytics/divide.py, kpis.py, grains.py, aggregate.py, filters.py and
--     trends.py: KPIs, sums over groups of facts, the periods of a report and its time buckets, in
--     Analytics/Divide, Kpis, Grains, Aggregate, Filters and Buckets.
-- Prelude holds dictionaries in insertion order, stable sorting, texts, dates, the calendar of
-- `datetime.date`, integers and decimals.
-- Tests holds concrete runs.
--
-- How they interact: the engine reads the staged rows and the run from the ingest store, extracts the
-- fields of each row, binds the day of the row to a configuration, computes labels and cost, and writes
-- the facts to the fact store; reconciliation recomputes them, publications copy them and the analytics
-- sum them up. A workbook token is bound to its account by the directory and to its company by its
-- grant. A store is a value that an operation takes and returns, since the lock of each in-memory store
-- makes its methods atomic. A method that can raise returns a `Result`, one that returns `None` an
-- `Option`.
--
-- Outside values: a reading of the clock, a fresh id and a random token are arguments. The packaged
-- JSON files, `datetime.fromisoformat` and `str` of a cell that is no text are parameters; a token is
-- the claims of one whose signature PyJWT has verified, and the test for a UUID is a parameter, as is the
-- sentence that reports the problems of a fact. Moments are natural numbers of seconds. Money is
-- counted in ten-thousandths and rates in millionths, without the 28-digit limit of `decimal`. Lower
-- case and white space of texts are those of the first 256 code points. A decimal of the analytics
-- is its coefficient and its number of places, exact as well. A loop is by recursion on the list
-- that it reads, and the chunked copy of a snapshot on the number of its chunks. Only the loop over
-- time buckets takes fuel, the days from the first bucket to the last, and gives `none` if that runs
-- out.
--
-- Not modelled: the PostgreSQL adapters and migrations (SQL), the HTTP routes and schemas, the web
-- pages, the workbook reader, the anomalies, insights and questions of the analytics, the account rules
-- and the threads around the stores; progress events, the sentences of rejections and exceptions of a
-- store in mid-run.
pub mod Prelude
pub mod Config
pub mod Transform
pub mod Ingest
pub mod Api
pub mod Analytics
pub mod Tests
