-- ===== src/Lib.antt =====
-- Deska: the client library of a database of machines (src/deska/db) and its command line
-- (src/deska/cli). The client talks to a server over a protocol; every change belongs to a
-- changeset, and a revision is a list of modifications of objects. This library models the parts
-- between the protocol and the terminal that decide what is sent and what the user is shown.
--
-- Db models src/deska/db. Db/Objects and Db/Modification are the scheme and the modifications of
-- Objects.h and ObjectModification.h, Db/Command the commands that can be batched. Db/Exec is the
-- shape of a method: a function of the state that gives a result, or what it throws, beside the new
-- state, so that what was written before a throw stays written.
--
-- Db/Caching models src/deska/db/CachingJsonApi.cpp, a layer over JsonApiParser. Its Api is the
-- interface of the base class, a record of calls on a server, with the laws that a server may have:
-- that applyBatchedChanges processes its commands in order, and that an object is created under the
-- name given, if that has its local part; for a name like foo-> the server assigns one. State holds
-- the fields, the tests on the queue and flushCommandsNow; Commands has one function per overridden
-- method that changes the server; Metadata has askForMetadata and the three questions about the
-- scheme, over the maps of FakeApi.cpp. Direct is the plain API, without the queue, to which
-- Refinement compares the layer. Homogeneous and Scheme are about the queue and the scheme, with
-- Chain and Refines for their lemmas.
--
-- Db/Filter has the filters of Filter.h, and their equality of Filter.cpp over that of values.
--
-- Db/MacAddress models src/deska/db/MacAddress.cpp, with the states of an input stream; a variable
-- that cannot be read keeps its value, which is a parameter. An unsigned long long is a number with
-- its wrap-around at 2 ^ 64.
--
-- Cli models src/deska/cli. Cli/Modification has the visitors of CliCommands.cpp that the commands
-- share. Cli/Path has pathToVector and vectorToPath of ContextStack.cpp, and Cli/Path/Context the
-- items of the context stack; the grammar of boost::spirit is read as a recursive descent. A
-- repetition takes a character at least in each round, so the length of the text is enough fuel.
--
-- Cli/Diff models src/deska/cli/CliCommands_DiffRebase.cpp. Compare is the comparison of
-- modifications by which both lists are sorted, Converters the six visitors that write one
-- modification for the user, Merge the three loops of Rebase::operator() with the text behind them,
-- Children the functions that clear the deletions of nested objects and collect our deletions. A
-- text with line ends is a list of its lines. The iterator lastModif is a value that names the
-- vector, the modification and what stands behind it; it is compared with the ends of the vectors
-- as the source does. Visits, Sides, Ours, Attributes and Finish carry the theorems about the
-- merge. Each round of the endless loop of clearChildDeletions but the last removes an element, so
-- one more round than elements is enough.
--
-- Cli/Session models the commands of CliCommands.cpp that change the changeset (start, resume,
-- commit, detach, abort) and the control flow of Rebase::operator(). Interface has what they use of
-- DbInteraction, the parser, the terminal and the file system; Commands and Rebase are the
-- commands, each a method of the fields of UserInterface, with exceptions as results; Laws says
-- what a server does with its changesets, and Triples has the rules by which the proofs follow the
-- methods. What the commands print is left out. Db/Revisions parses the ids of revisions and
-- changesets.
--
-- Cli/Relations models the constructor of DbInteraction in src/deska/cli/DbInteraction.cpp, from
-- the kinds and the relations that the server gives, and two of the questions that it answers from
-- there; Answers compares them with the scheme.
--
-- Cli/Objects models the objects of src/deska/cli/DbInteraction.cpp: State the fields and the
-- changesets with their views, Exists objectExists with its cache, Expand expandContextStack and
-- filterOnName, Modify the creation, restoration, deletion, renaming and the changes of attributes.
-- ObjectsApi in State is what they call of Db::Api, ExistenceLaws in Laws what is relied on there:
-- which objects exist, what a query answers of them and what a creation, a restoration and a batch
-- do. Of a batch that renames objects, or creates one under a name without its local part, nothing
-- is relied on. Nested, Contained and Transitive model allNestedObjects, containedObjects and
-- allNestedObjectsTransitively. The recursion of the last is on fuel, and more of it than the rank
-- of the kind is enough where the embedding of kinds is not circular. Histories composes the calls,
-- and the files beside it hold what is shown of each: Cached, Changed, Created, Restored, Settled,
-- View, Kept and Expanded the steps, Coherence, Answers, Named, Embedded, Contained/Answers and the
-- files under Transitive the results. Where embeds[kind] and contains[kind] are only read, the
-- empty entry that std::map inserts is modelled.
--
-- Cli/Signals models src/deska/cli/ParserSignals.cpp: Handler the signals with their confirmation
-- and application and the slots that run them for a line, over the functions of UserInterface that
-- Interface lists; Reached and Balanced say in which context the parser ends.
--
-- Cli/Ui models src/deska/cli/UserInterface.cpp: Confirm the confirmation of the signals, Apply
-- their application, Run the loop over the lines of the user with its handlers. Wired gives both to
-- Cli/Signals. The search of connected objects is a parameter. The parser and the commands are
-- fields of Client. Loop and Detached are about the end of a line and a session without a
-- changeset.
--
-- Strings are lists of bytes, numbers are natural numbers, a map is an association list. The type
-- of attribute values is a parameter with its equality and its printer; the equality is taken to
-- decide sameness, which leaves out NaN and the two zeros of double.
--
-- Not modelled: the parser, whose grammar is built at run time of boost::spirit rules; the JSON
-- conversion of the protocol; sockets, processes, the terminal, readline and configuration files;
-- the Python bindings; the server, which is SQL and Python; third-party libraries. The transitive
-- search of connected objects in DbInteraction, the other commands and the printing of objects are
-- not modelled; they enter as parameters where they are used.
pub mod Base
pub mod Db
pub mod Cli
