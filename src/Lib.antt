-- ===== src/Lib.antt =====
-- mcp-attest: signed, hash-chained attestation of MCP calls.
--
-- The program: a proxy (src/mcp_attest/proxy.py) forwards a JSON-RPC request to an upstream, and puts a
-- signed record of the call into a log (src/mcp_attest/log.py), one line of canonical JSON
-- (src/mcp_attest/canonical.py) for each record. A record (src/mcp_attest/entry.py) names the hash of the one before
-- it and is signed with the log's key (src/mcp_attest/crypto.py); the caller gets a receipt. A verifier
-- (src/mcp_attest/verifier.py) checks receipts, whole logs, and signed tree heads against each other.
--
-- Which file models which part:
--   Errors      errors.py and the built-in exceptions; an exception is its class. `Result` is what a call
--               returns or raises.
--   Runtime     what CPython supplies: doubles and the Unicode database, as a record of operations, with
--               the laws used in `IsLawful`.
--   Value       the Python values that are attested: `Value`, `Items` and `Fields`, with dict access in Value/Dict,
--               and `str`, `int`, `float` and `repr` in Value/Convert.
--   Utf8, Json  `str.encode`, `bytes.decode`, `json.dumps` and `json.loads`, as far as the package uses them: an
--               encoder (Json/Encode, Json/Sort), a scanner (Json/Lex) and a parser with a stack (Json/Parse).
--   Crypto      crypto.py. BLAKE2b and Ed25519 are the record `Primitives`, with the laws used in `IsSound`.
--   Canonical   canonical.py: `dumps`, `loads`, `hash`.
--   Entry       entry.py: the four wire types, `to_dict` and bytes; Entry/FromDict has the `from_dict` methods.
--   Log         log.py: `iter_records`, `read_record` and `scan_last_record` in Log/Reader, `append`, `head_hash`
--               and `emit_sth` in Log/Writer. The state is the file, `none` while it is missing; Log/Lines
--               splits it into lines.
--   Verifier    verifier.py: `verify_receipt`, `verify_chain`, `verify_sth`, `detect_equivocation`.
--   Writers     log.py again: `append` calls at once, a step for each shared access (`Move`), on numbered threads
--               that the lock orders.
--   Proxy       proxy.py: `handle`, over an upstream that is any function.
--   Cli         cli.py: the commands, from the bytes of their files to the exit status (Cli/Exits). A missing log is
--               status 2, by click; the key files and tree head files are there.
--   Examples    examples/mock_mcp_server.py (Examples/Server, Examples/Post), examples/mock_mcp_client.py
--               (Examples/Client), examples/demo.py (Examples/Demo) and scripts/tamper_attack.py
--               (Examples/Tamper), with the text files that the scripts rewrite in Examples/Files; Json/Ascii is
--               the `json.dumps` that they call.
--   Base        numbers, texts, decimal and hexadecimal digits.
--   Tests       a toy runtime and toy primitives that keep the laws, and the theorems at concrete runs.
-- The theorems of a part stand in its child modules: Log/Format relates a file to a list of records,
-- Log/Append, Log/Digits, Log/Failure and Log/Faults say what `append` makes and leaves, Log/Torn follows a file with
-- a torn last line, Verifier/Chain describes a valid chain, Verifier/Growth follows a log through appends,
-- Verifier/Returns (with Json/Returns, Canonical/Returns, Entry/Returns and
-- Log/Returns) shows which appends return, Verifier/Emits (with Log/Emits) that tree
-- heads are returned, Verifier/Tamper, Verifier/Receipts and Verifier/TreeHead say what the
-- hashes, receipts and tree heads pin down, Verifier/Race what an append amid `emit_sth` does, Verifier/Failures and Verifier/Edit what a failed result names and
-- what a changed record leads to, and Verifier/Verdict when there is a result. Log/Refine puts the file beside
-- the list of records that it stands for. Writers/Invariant is kept by each step, Writers/Sequential compares
-- interleaved appends with sequential ones, Writers/Progress frees the lock. Examples/Tamper/Detected follows
-- the tamper script to its end, and Examples/Demo/Ends the demo: Examples/Calls has one call with known
-- values, Examples/Sequence a list of them, Examples/Replaced the edited line, Examples/Demo/Fork the two tree
-- heads and Examples/Demo/Steps how the steps lead to the end.
--
-- Choices. A str is its code points, bytes are numbers, a dict lists its items in insertion order with
-- text keys, and an int is unbounded. A value that json refuses is `foreign`. Loops are structural
-- recursion, except for decimal digits, where n + 1 rounds of division are enough for a number n.
-- `json.loads` has CPython's limit of 4300 digits. In Log an append is one step on the file, and a log that
-- many writers made is a sequence of appends (`Written`); Writers shows that its critical section
-- justifies it. A theorem that rests on the hash has a collision as its other outcome, between the bytes that
-- it names: nothing is assumed of BLAKE2b but the size of a digest.
--
-- A refusal of the operating system in `append` is an argument of `append_with` in Log/Faults, which is
-- `append` without one; the other theorems on `append` are on calls in which nothing is refused. `emit_sth`
-- reads the file twice without the lock: `emit_sth_between` has the file at each read, and `emit_sth` is the case
-- that nobody appends in between, which the theorems on tree heads are about; Verifier/Race has the other one.
-- The reads of `verify`, `inspect` and the rest are of one state of the file, too.
--
-- Not modelled: OS errors of what is read, of `touch` and in the interleavings of Writers; what the system keeps
-- of an unsynced file; logging and the text of warnings and exceptions, on which nothing depends; the
-- recursion limit; the chunks in which a text file is decoded: it is decoded whole, so that a byte that is not
-- UTF-8 behind the chunk of a broken record raises in the model, where the program has returned before; dicts
-- with keys that are no texts; a request that the upstream mutates; the loading of a script by importlib, a
-- parameter of the demo command (Cli/Demo); the layout of what the commands and scripts print and the modes of
-- the files that are written; temporary directories; the HTTP server and client of the standard library and
-- httpx; src/mcp_attest/__init__.py, which only exports names.
pub mod Base
pub mod Errors
pub mod Runtime
pub mod Value
pub mod Utf8
pub mod Json
pub mod Crypto
pub mod Canonical
pub mod Entry
pub mod Log
pub mod Verifier
pub mod Writers
pub mod Proxy
pub mod Cli
pub mod Examples
mod Tests
