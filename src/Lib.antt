-- ===== src/Lib.antt =====
-- OCCAM is a whole-program partial evaluator for LLVM bitcode. Each module is given an interface:
-- the calls that other modules make of it, with abstract arguments. A module is specialized with
-- respect to its interface, the rewrites that its clients need are written to a transform, and the
-- clients have their calls replaced. Inside a module, calls with constant arguments are
-- specialized too. Policies decide which calls are worth it.
--
-- Base has the shared names: tests on numbers, lists under native lengths, and texts as lists of
-- bytes. Value and Ir hold what the passes read of LLVM: a value, a function and a call site are
-- the records of the answers to the queries that the code makes. LLVM itself is not modelled: what
-- the code calls of it (HashString, CloneFunction, scc_begin, GlobalDCE) is a parameter, with the
-- documented behaviour that a theorem relies on as a named hypothesis (IsFaithful, AreComponents,
-- KeepsVisible, IsIntact).
--
-- Previrt is PrevirtType of src/PrevirtTypes.cpp: `abstract`, `refines` as a score (none is
-- NO_MATCH), `concretize`, the tests and the text. Interface is CallInfo and ComponentInterface of
-- src/PrevirtualizeInterfaces.cpp: the map of calls is an association list, a pointer to a
-- CallInfo is a number that is drawn from the interface, and a protocol buffer is the record of
-- its fields. Transform is CallRewrite and ComponentInterfaceTransform of the same file.
-- Specializer is src/Specializer.cpp: the names of specialized functions, the function that is
-- found or cloned, and the new call. Table is src/SpecializationTable.cpp, with entries looked up
-- by the address of their function. Policy is include/SpecializationPolicy.h and the four policies
-- of src/, each a pair of functions over the state of the policy.
--
-- Inter is SpecializeComponent of src/InterSpecializer.cpp with the choice of the policy: the
-- state of its loops is a record that each step passes on, and `none` is a failed assertion.
-- Rewriter is TransformComponent of src/InterRewriter.cpp on the list of the client's call sites;
-- its loop goes on from the use of a call that it has just erased, so what this use leads to is a
-- parameter (`erased`), and IsIntact is the hypothesis that it leads to the use behind it. Whole
-- puts the two sides together. Intra is trySpecializeFunction of src/IntraSpecializer.cpp on the
-- call sites of one function. The children Made and Served of Inter relate a rewrite to a recorded
-- call and to the call of a client. Arguments is src/PartialCommandLineArguments.cpp: the reading
-- of the manifest, and the `main` that the pass builds, as it runs. CommandLine is
-- src/CommandLineArguments.cpp, which fixes all arguments by a file. Internalize is
-- MinimizeComponent of src/InternalizeComponent.cpp on the symbols of a module. Gather is the
-- traversal of the call graph in src/GatherInterface.cpp.
--
-- Hierarchy is the class hierarchy graph of src/analysis/ClassHierarchyAnalysis.cpp with its
-- closure on a Boolean matrix: struct types are known by their addresses, and a map is the list of
-- its entries in the order of iteration. Vtables is the reading of the vtables in the same file,
-- and Virtual the resolution of virtual calls, with the counters of the analysis; llvm_unreachable
-- is `none`. Bounce is the bounce functions of src/transforms/DevirtFunctions.cpp: the list of
-- their blocks, and how a call of one runs. Devirt is the replacement of indirect calls over the
-- interface of a resolver (include/transforms/DevirtFunctions.hh), and Resolvers has the three
-- resolvers: by types, by a pointer analysis and by the class hierarchy.
--
-- MemorySsa is include/analysis/MemorySSA.h and src/analysis/MemorySSA.cpp: the calls of shadow
-- functions that carry the memory SSA form, a vector with an empty place for each index that has
-- no call. DeadStore is src/transforms/IPDeadStoreElimination.cpp: what one user of a memory
-- instruction does, and the worklist of its child Worklist, whose state is the queue, the visited
-- pairs and the mark of each store; a fatal error, a failed assertion and a run out of fuel are
-- results of their own.
--
-- Profiler is src/utils/Profiler.cpp: its child Visits has one visit for each kind of instruction,
-- over a map from the counters of the pass to their 32-bit values.
--
-- Bounds: the counters of the bounded policy are 32-bit and keep their wrap-around, as do the
-- counts of arguments and of a CallInfo; the copying loop of the new `main` runs on fuel, and one
-- round more than there are arguments is enough; so does the traversal of the call graph, and the
-- entries and the nodes are enough, with one round more; `principal` runs on fuel, and as many
-- rounds as the table has entries are enough. A run of a bounce function has fuel for each of its
-- blocks, which is enough, and the loops of the closure run as often as there are nodes. The
-- worklist for dead stores ends when its fuel is above the pairs of an instruction and a store
-- with what their users put on the queue. The index of a virtual call is the 32 bits of an int,
-- and the counters of the class hierarchy analysis wrap at 32 bits. An index out of range, a read
-- past the end of a text, an undefined conversion and a failed assertion are `none`: so are the
-- assertions on the number of operands (specializeCallSite, trySpecializeFunction) and on the
-- lengths of two schemes (Specialization::refines). A theorem on a run that is `some` is on the
-- runs that pass them. Whether the type that `concretize` wants is that of the constant it makes
-- is a query (`has_type`).
--
-- Not modelled: the printing of debug output and dump, the files and the bytes of protocol
-- buffers, the code generators (getEqualityFunction), the interpreter and constant propagation
-- (which are LLVM's own), the priming of configurations, the lowering of initializers, the
-- verifier calls, the call graphs by cost, the inlining, the options of the devirtualization pass,
-- the erasing of the dead stores, the printing of the profile, and the analyses that stand on
-- libraries outside the repository.
pub mod Base
pub mod Value
pub mod Previrt
pub mod Interface
pub mod Transform
pub mod Ir
pub mod Specializer
pub mod Table
pub mod Policy
pub mod Inter
pub mod Rewriter
pub mod Intra
pub mod Arguments
pub mod Internalize
pub mod Gather
pub mod CommandLine
pub mod Hierarchy
pub mod Vtables
pub mod Virtual
pub mod Bounce
pub mod Devirt
pub mod Resolvers
pub mod MemorySsa
pub mod DeadStore
pub mod Profiler
