-- ===== src/Lib.antt =====
-- The core of the Hemera indexer, which reads an EVM chain from a node, derives records from it and
-- stores them.
--
-- How the program works, and which file models which part. A stream controller asks for the height of
-- the chain and dispatches ranges of blocks; a dispatch runs the jobs that the job scheduler has put in
-- order; a job has its items worked on in batches by a batch executor, collects records in buffers that
-- the jobs share, and exports them; a recorder keeps the last synced block.
--   Prelude: numbers, lists, dicts, Python's integers, tests, and the `Eq` interface, which the keys of
--   dicts and sets are instances of.
--   Errors: common/utils/exception_control.py. A call that can raise has a result of the type `Outcome`;
--   messages are lists of code points (Errors/Text), and Errors/Decoding has `decode_response_error`.
--   Stream: indexer/controller/stream_controller.py. `do_stream` is `_do_stream`; the answers of the
--   node, the dispatcher and the recorder are a list with one entry for each round of the loop.
--   Executor: indexer/executors/batch_work_executor.py, with indexer/utils/progress_logger.py and
--   indexer/utils/atomic_counter.py in Executor/Progress. The work handler is a parameter that acts on a
--   state of the caller's; Executor/Races has the interleavings of the workers as a step relation.
--   Scheduler: indexer/jobs/job_scheduler.py. A job class is its place among the discovered classes, and
--   `Declarations` has what indexer/jobs/base_job.py lets a class declare.
--   Jobs: `run` and `_export` of indexer/jobs/base_job.py, `run_jobs`, and the dispatcher of
--   indexer/controller/dispatcher/stream_dispatcher.py. The methods that a job overrides are parameters,
--   and the counts of the buffers go to the exception recorder of Recorders.
--   Utils: indexer/utils/utils.py; Sorting and Groups are `list.sort` with a key and `groupby`.
--   Blocks: indexer/jobs/export_blocks_job.py and indexer/specification/specification.py.
--   Transfers: indexer/domain/token_transfer.py, `decode_log` of indexer/utils/abi.py, and the steps of
--   indexer/jobs/export_tokens_and_transfers_job.py that extract transfers, learn tokens and store.
--   Traces: indexer/jobs/export_traces_job.py and the tests of indexer/domain/trace.py.
--   Balances: indexer/jobs/export_coin_balances_job.py, up to what is asked of the node, and
--   indexer/jobs/export_token_balances_job.py, with the answers and the current balances.
--   Domain: indexer/domain/log.py, receipt.py, transaction.py and block.py, and the job for receipts,
--   indexer/jobs/export_transactions_and_logs_job.py, in Job; Collected is what its batch collects. A field
--   of an answer is a text or null, and it may be missing.
--   Contracts: indexer/jobs/export_contracts_job.py and indexer/domain/contract.py. Names reads the answers,
--   Senders is `_process`.
--   TokenIds: indexer/jobs/export_token_id_infos_job.py and indexer/domain/token_id_infos.py. Infos is what is
--   asked for, Requests and Answered the answers, Latest is the buffer and `_process`.
--   Fixing: the loop of indexer/controller/fixing_controller.py over the blocks that may differ from the
--   chain; the answers for each block, with those to the writes of its record, are a function of its
--   offset. The job that it runs has no method to be told its block, so that no block is ever fixed.
--   Bridges: indexer/modules/bridge/, and common/utils/bridge_utils.py of the API. Bytes and Hex are Python's
--   `bytes` and hexadecimal texts; Deposits and DepositTx are bridge_utils.py; Arbitrum and Bedrock have the
--   parsers of the two bridges, and Arbitrum/Job the deposits of arb_bridge_on_l1_job.py; Rows, Formats,
--   Status and Parser are the parser of bridge transactions for the API, whose rows are dicts.
--   Recorders: indexer/utils/sync_recorder.py, with the names that common/utils/file_utils.py opens no file
--   for, and indexer/utils/exception_recorder.py.
--   Tests: small runs, and each theorem that has conditions at an input that meets them.
--
-- Numbers. Python's integers are unbounded: they are ℕ where the code has no negative ones, and else the
-- ℤ of Prelude/Int.
--
-- Loops. Loops over lists are structural. `while` loops run on fuel: `resolve_dependencies` on the number
-- of the jobs, as each round puts one job into the order; `get_required_job_classes` on the length of the
-- queue and of the dependencies of all classes, as each class enters its own at most once; the loop of the
-- stream on the list of answers, as it may run forever; the grouping of the traces on their number. The
-- theorems on these show that the fuel is enough.
--
-- What is not modelled: the code under api/, cli/ and migrations/, which is routes, options and schema
-- changes; the exporters, which only write; the models of common/models/; the custom modules, and the
-- jobs that copy what the bridge parsers return into the classes that are stored. The node, the database,
-- the clock, the ABI codecs of eth_abi and web3, the library rlp, the hash function and the printing of
-- floats are parameters. Log messages are left out.
pub mod Prelude
pub mod Errors
pub mod Utils
pub mod Executor
pub mod Stream
pub mod Blocks
pub mod Transfers
pub mod Jobs
pub mod Scheduler
pub mod Traces
pub mod Balances
pub mod Fixing
pub mod Recorders
pub mod Domain
pub mod Contracts
pub mod TokenIds
pub mod Bridges
mod Tests
