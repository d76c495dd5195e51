-- ===== src/Lib.antt =====
-- CHR: an incremental engine for Constraint Handling Rules with explicit disjunction.
--
-- The engine reads a program and a query (src/syntax.rs), prepares them as tables of instructions
-- (src/program.rs), and runs them over a graph whose facts hold under conditions: Boolean diagrams
-- over the choices that disjunctions make (src/condition.rs), which collection finds with cursors
-- (src/trace.rs). Seven parts are modelled.
--
-- Condition, for src/condition.rs, is the arena of diagrams between two reorderings.
--   Condition.Handle, Condition.Key: `Condition`, its negation, the terminal rules `simple`, and the
--     keys of nodes and pairs.
--   Condition.Arena: `Arena` and its operations `node`, `view`, `evaluate`, `fresh_choice`,
--     `fresh_scoped_choice`, `precedes`, `cached` and `remember`. A panic is `none`.
--   Condition.Job: `Job`, the explicit stack of a conjunction or disjunction, and `tick`, which does
--     one step of it. The memo is given back an entry a tick, and a job whose order is out of date
--     starts over.
--   Condition.Slab: `NodeSlab`, the linked blocks of eight nodes, with `allocate`, `remove` and
--     `next`. `Arena` holds it as the map from identities to nodes that it stands for.
--   Condition.Meaning, Condition.Valid: what a condition says under an assignment of the choices,
--     and the invariant of the arena. The other modules below Condition prove the results.
--   A `u64` identity is a number, and the increment that would leave 64 bits fails; the counter
--   `work` of a job, which only measures, is a number without a bound. `evaluate` takes fuel: a
--   round for each choice is enough, because the rank of the choice grows along every branch.
--
-- Syntax, for src/syntax.rs, is the text syntax.
--   Syntax.Text, Syntax.Ast: texts as lists of code points, with UTF-8 lengths only where an offset
--     counts bytes; `Atom`, `Body`, `Rule`, `Program` and `ParseError`, with an error's message and
--     path as data.
--   Syntax.Validate, Syntax.Print, Syntax.Parser: `validate_query` and `validate_program`,
--     `format_query` and `format_program`, `parse_query` and `parse_program`. The parser's `pos` is
--     held as the text from it on. The parser spends fuel: four units for each code point are
--     enough, because every nested call comes after a parenthesis or a separator. The worklists of
--     `validate_body` and `format_query` spend a unit for each entry they will ever hold.
--
-- Program, for src/program.rs, is the first half of `prepare`.
--   Program.Variables, Program.Builder: `Variables::slot`, `Builder`, `Layout`, and the rule plans
--     and instructions that `prepare` builds from them.
--
-- Trace, for src/trace.rs, is the cursor that lists the conditions of suspended work: all walks of
-- `Cursor`, with the nested cursor of a child as data and the child's own walk as a parameter.
--
-- Runtime, for src/runtime.rs, is `drive`, over a record of the calls that it makes of the engine,
-- and `discard_slot` of src/gc.rs.
--
-- Store, for src/store.rs, is the persistent index that the graph and the engine keep their facts
-- in: a trie over the bits of keys of four words, whose last levels are pages of up to eight.
--   Store.Word, Store.Key: words and their bits, `right`, `difference`, `bounds`, the order of keys.
--   Store.Trie: `Root` and `Node`, `allocate`, `page_batch`, `get`, `insert`, `remove`, `count`.
--   Store.Cursor: `range`, `PageRun` and `Cursor`. `next` takes fuel, a unit for each turn of its
--     loop: a turn goes round again only when it has left a node of the trie behind.
--   Store.Prefix: the subtree of a prefix, without its memo, and `split_prefix`.
--   Store.Coalesce: the scan of `batch` over its writes, from the last to the first.
--   Store.PageArray: `PageEntries`, of which `Node` holds the entries below its length as a map.
--   Store.Queue: `Block`, `QueueState` and `Queue`, the children that wait for release.
--   Store.Shape is the invariant of a trie; the other modules below Store prove the results.
--   A root stands for the tree that it refers to. The marks of collection are left out: every root
--   is taken to be a current one of its store, and no collection of it to be on, so that the
--   assertions of `insert` and `remove` hold. Where the code says `unreachable!` the model gives the
--   root unchanged, or no entries; the assertions of a page's capacity are left out. Counters are
--   left out.
--
-- History, for src/history.rs, keeps the once-only support of a rule at a tuple of occurrences: it
-- gives a key an identity, and the identity is the key of a trie of the store. Modelled are
-- `support`, `set_support`, `entries`, `collect` and the end of its lease, and, of
-- `Collector::tick`, a mark, a turn of the sweep, and the sweep to its end, whose fuel is a turn
-- for each record and one more. Of the index its flag is
-- kept that stands for a collection being on, in which `set_support` fails; a root is taken to be a
-- current one. The records are an association list; where a result needs the order of a BTreeMap,
-- the order of their identities is its hypothesis `IsOrdered`. History.Reached has the steps
-- that a new history takes, in any order, and that they keep this order.
--
-- Map stands for BTreeMap and HashMap; Prelude for the names that all parts share.
--
-- Not modelled. In src/condition.rs: reordering (`Sift`), archives, collection, substitution and
-- projection (`Transform`), and `compact_tick`, which only shrinks storage. In src/syntax.rs: the
-- JSON decoder, which drives a third-party library. In src/program.rs: trigger tables, constructor
-- recognition and update plans. In src/store.rs: what `batch` does after its scan, the memo of
-- prefixes, filters, collection and substitution. In src/history.rs: `Prune`, and the collection of
-- the index with its own epochs, which gives the identities to mark. The graph, identities,
-- matching, commitment, the engine, observation and the notebook server are not modelled; the
-- server is input and output.
pub mod Prelude
pub mod Map
pub mod Condition
pub mod Syntax
pub mod Program
pub mod Trace
pub mod Runtime
pub mod Store
pub mod History
