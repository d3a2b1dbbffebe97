-- ===== src/Lib.antt =====
-- A store's catalogue and its product reviews, and the pipeline spine (packages/jobs) on which the
-- reviews run their work: an instance of a pipeline moves through stages, a stage may fan out into
-- branches, an outbox carries what a transaction has changed to its projections, a reconciler drives
-- on what has stalled, and a purge deletes what is old. Two rate limiters (packages/messaging) hold
-- calls back.
--
-- Base
--   Base/Tests, Base/Lists and Base/Texts: Boolean tests, lists and texts over the native numbers.
-- Sql
--   One table as a list of rows, in the order in which a SELECT without ORDER BY gives them:
--   `select_where`, `first_where`, `count_where`, `update_where`, `insert_unless` (INSERT ... ON
--   CONFLICT DO NOTHING). Sql/Io has the code that reads and writes a database and may throw: a
--   function from a `World` to an `Outcome` and a `World`; `transaction` puts the database back where
--   its body throws, and never undoes what was done to the world outside (`ext`). Sql/Batch has the
--   `DELETE ... LIMIT` of a batch, which hits the first of the matching rows. Sql/Keyset has keyset
--   pagination: the rows of a page in their order, the cut after `limit` of them and the cursor of the
--   next page; Sql/Keyset/Order is about ORDER BY, Sql/Keyset/Walk about the walk over all pages.
-- Kernel (packages/kernel/src/errors)
--   Kernel/Value has the JavaScript values that a `catch` can receive, as far as the code looks into
--   them. Kernel/Errors is app-error.ts, taxonomy.ts, error-code.ts and is-app-error.ts with
--   internal/app-error-shape.ts; Kernel/Retry is retry-classifier.ts (`classifyRetry`);
--   Kernel/Describe is describe-error.ts (`describeError`).
-- Jobs (packages/jobs/src, with the vocabularies of packages/entities/src/jobs)
--   Jobs/Store has the tables. Jobs/Attempts is internal/attempts.ts and internal/reason.ts,
--   Jobs/DeadLetter the stage part of dead-letter.ts, Jobs/AttemptResult is
--   internal/attempt-result.ts, Jobs/Stage and Jobs/StageRun are stage.ts with
--   internal/terminal-routing.ts, Jobs/Branch and Jobs/BranchRun are branch.ts, Jobs/Outbox and
--   Jobs/OutboxRelay are outbox.ts with the outbox part of dead-letter.ts, Jobs/Reconciler and
--   Jobs/ReconcilePass are reconciler.ts. A stage run claims, reads the write-ahead row or makes the
--   external call and writes it, and completes; a terminal failure of the call, a claim over the
--   ceiling and a stale row over the ceiling all end in a dead letter. Jobs/Contract is contract.ts
--   with internal/identifiers.ts and internal/table-refs.ts, Jobs/Contract/Names is about the names in
--   an accepted contract; Jobs/Retention is retention.ts, with what its batches delete in
--   Jobs/Retention/Batches, what stays in Jobs/Retention/Floor, and whole passes in
--   Jobs/Retention/Purged. Jobs/Pool is internal/concurrency.ts: a run of it is a schedule of moves of
--   its workers; Started, Once, Ends and Complete below it are about what every schedule keeps, what
--   it starts, how long it is and what it completes. Jobs/Checks has checks that throw, one after
--   another.
-- Messaging (packages/messaging/src)
--   Messaging/SlidingWindow is sliding-window-rate-limiter.ts with internal/sliding-window-lua.ts:
--   Admitted, Limit and Retry below it are about the log of the admitted calls, the limit and the
--   wait. Messaging/TokenBucket is rate-limiter.ts with internal/token-bucket-lua.ts,
--   internal/token-bucket-retry.ts and internal/rpm-limiter-options.ts: Spending and Stored below it
--   are about the calls of a span of time and about what a call leaves in the bucket. Messaging/LogSuppressor is
--   internal/log-suppressor.ts.
-- Reviews (packages/reviews/src, with packages/entities/src/reviews)
--   Reviews/Store has the tables and what the operations share (internal/resolve-product.ts,
--   internal/emit-rating-recompute.ts, outbox.ts), Reviews/Violations is
--   internal/unique-violation.ts, Reviews/Submit is `submitReview` of reviews.ts, Reviews/Change has
--   `updateReview` and `removeReview` of reviews.ts with internal/resolve-review-owner.ts, and
--   `setReviewModerationState` of moderation.ts; Reviews/Rating is internal/recompute-statement.ts
--   (Reviews/Rating/Published has a rating told without the query),
--   Reviews/Rebuild is `rebuildProductRating` of rating.ts, with its pages in Reviews/Rebuild/Pages
--   and the ratings after it in Reviews/Rebuild/Ratings. Reviews/Slug is `deriveProductSlug` and
--   Reviews/Products has `createProduct`, `updateProduct` and `getProductBySlug` of products.ts (the
--   table stays sound in Reviews/Products/Sound, by the lemmas of Reviews/Products/Distinct);
--   Reviews/ProductList is its `listProducts`, and
--   Reviews/ReviewList has `listReviewsForProduct` and `listReviewsForModeration` of reviews.ts and
--   moderation.ts. The Walked below each of them is about a caller who follows the cursors of the
--   catalogue and of the list of one product.
--   Every write of a review emits an event into the outbox in its own transaction; in the
--   application the relay of Jobs answers an event with a recomputation. Where an operation answers
--   with a part of a row, the model of an edit answers with the row. The trigger on the table moves
--   `updated_at` at every UPDATE. The average of a rating is a number of hundredths.
-- Api (apps/api/src/http)
--   Api/ErrorMapper is error-mapper.ts: Opaque and Uniform below it are about what a server fault
--   gives away and about the ways to the wire. The response that oRPC makes of an `ORPCError` is a
--   parameter.
-- Tests
--   Runs of the model on concrete tables.
--
-- How the code is modelled
--   A transaction is one step: most take the instance's advisory lock first, and the others are a few
--   statements. What other connections commit between two transactions of a run is the parameter
--   `elsewhere`, a function of the point of the run at which they do it. A SELECT ... FOR UPDATE SKIP
--   LOCKED has a parameter that tells the rows that are free. The reconciler's units run one after
--   another, where the code runs up to four of them at once in a pool; what other connections commit
--   between the scan's SELECT and the lock of a unit is again a parameter `elsewhere`. The columns
--   `{stage}_stage_status_id`, `{stage}_attempts` and `{stage}_updated_at` of an instance are
--   functions of the stage. Time is the database's `now`, in milliseconds, which the clock of the
--   process agrees with. The queue, the external call, the domain writes, the successors, a minted
--   token and the schema of a result are parameters. Statuses read from a table are those of the
--   vocabulary, whose foreign keys the tables have; a result column is parsed by its schema, and the
--   error of a failed parse is kept. A uuid is compared as the text it is written as. An error of the
--   database itself is modelled where the code's own values cause it: the check on an empty reason,
--   the unique constraints of a review and of a product, and the checks on a product. A purge reads
--   the clock once and no other connection writes during it. The collation of the database, the order
--   of uuids, `trim`, `lower`, the match of a search term and the bytes of a cursor are parameters.
--   Timestamps of the lists are in microseconds or coarser: there are `ticks` of them in a millisecond,
--   and a cursor keeps the milliseconds. A Redis script is one step, and its keys expire. The tokens
--   of a bucket are exact, in whole parts of a token, where the script has floating-point numbers and
--   stores them with 14 digits: what is said of a bucket is said of the exact numbers. The horizons and
--   batch sizes of a purge are natural numbers. A reason is cut at 500 UTF-16 units; the half of a
--   character cut in two is the replacement character that the database gets. No item of a pool is
--   `undefined`.
--
-- Fuel
--   `insert_chunks` has one round more than there are rows, and a round takes a thousand;
--   `digits` has as many rounds as the number it prints. A batched delete ends with more fuel than
--   there are matching rows, where its batch size is positive; the rebuild of the ratings and the walk
--   over a list end with more fuel than there are rows.
--
-- Not modelled
--   Logs, counters and histograms; what only wires a pass to BullMQ (startReconciler,
--   startOutboxRelay, startRetention, and the queues, workers and schedules of packages/messaging),
--   and the event bus; the SQL text itself and the migrations; the routes of the HTTP application,
--   the web application, authentication, configuration and the repository's own tools.
pub mod Api
pub mod Base
pub mod Jobs
pub mod Kernel
pub mod Messaging
pub mod Reviews
pub mod Sql
pub mod Tests
