-- ===== src/Lib.antt =====
-- cosy, a library that gives a SAT solver clauses from the symmetries of its problem.
--
-- A solver tells the SymmetryController each literal that it assigns (updateNotify) and each one
-- that it takes back (updateCancel), and asks it for clauses. The controller keeps the Assignment,
-- the Group of permutations that generate the symmetries, and the ClauseInjector in which clauses
-- wait. A CosyManager holds one CosyStatus for each permutation, which walks along the variables
-- in an Order for as long as the assignment agrees with its image under the permutation. At the
-- first pair that differs the status may become a reducer, and then an effective symmetry breaking
-- predicate (ESBP), a clause that is false now, is put into the injector.
--
-- Files, and the code that each one models:
--   Prelude and its children: Boolean tests, lists, hash maps, integers; names of the libraries.
--   Bits: the bits of numbers, as the masks of Bitset.h need them.
--   Literal: include/cosy/Literal.h.
--   Bitset: include/cosy/Bitset.h, class Bitset64.
--   Assignment: include/cosy/Assignment.h. The abstract view of an assignment is `valuation`.
--   Permutation: include/cosy/Permutation.h, src/Permutation.cc.
--   Order: include/cosy/Order.h, src/Order.cc; BreakidOrder: class BreakIDOrder of Order.h;
--     OrderFactory: include/cosy/OrderFactory.h.
--   DisjointSets: include/cosy/DisjointSets.h; Orbits: include/cosy/Orbits.h, src/Orbits.cc.
--   Injector, ClauseInjector: include/cosy/ClauseInjector.h, src/ClauseInjector.cc.
--   Group: include/cosy/Group.h, src/Group.cc.
--   CnfModel: include/cosy/CNFModel.h, src/CNFModel.cc; CnfGraph: include/cosy/CNFGraph.h,
--     src/CNFGraph.cc.
--   StreamBuffer: include/cosy/StreamBuffer.h, src/StreamBuffer.cc. Its operations are an
--     interface, StreamBuffer/Input, that the two readers take; a list of characters implements it
--     too.
--   CnfReader: include/cosy/CNFReader.h, src/CNFReader.cc; SaucyReader: include/cosy/SaucyReader.h,
--     src/SaucyReader.cc. Printed in each of them is the text of a file, independent of the code.
--   SymmetryFinder: include/cosy/SymmetryFinder.h, src/SymmetryFinder.cc, and both of
--     src/BlissSymmetryFinder.cc and src/SaucySymmetryFinder.cc.
--   CosyStatus: include/cosy/CosyStatus.h, src/CosyStatus.cc.
--   CosyManager: include/cosy/CosyManager.h, src/CosyManager.cc.
--   SymmetryController: include/cosy/SymmetryController.h; its constructors are in Load.
-- Child modules hold the lemmas and theorems, Tests the runs on concrete data of Examples.
--
-- How the code is represented: an object is a record, a method a function from the old object to
-- the new one under the method's name in small letters (addToCurrentCycle is
-- `add_to_current_cycle`). References to other objects are arguments. An exception of
-- `unordered_map::at`, a failed CHECK of an argument, a null pointer and an index outside a vector
-- of the manager or the group is the result `none`. So is the assert of
-- CosyStatus::generateESBP that there are two literals, which the code itself can fail. Asserts
-- that only the callers can meet are hypotheses of the theorems, as the assert of
-- Permutation::closeCurrentCycle that a cycle has two literals; that of Order::add, that the
-- literal is new, is met by every caller. A constructor of SymmetryController that returns early
-- gives a controller all the same, without values and permutations, and with `left` for the
-- member `_num_vars`, which it leaves unset. `std::unordered_map` is a function,
-- `std::unordered_set` a list in the order of insertion; walks over a set go along that list, so
-- the theorems on such walks ask nothing of the order but that no index is repeated. Words of a
-- bitset are numbers below 2 ^ 64 with the wrap of the shifts written out. The `int` index of a
-- literal and the `int` of a number in a file are unbounded; the theorems on the texts of files
-- assume that they fit.
-- Some loops are not over a list or a counter. That of CosyStatus::updateNotify has as fuel the
-- number of places of the lookup order that are left, and each round passes one. Those of
-- DisjointSets::Find have a number above every rank, and the rank grows along the parents. That of
-- BreakIDOrder has the number of permutations, and each round takes one away.
-- The order in which a map of orbits is walked over is a parameter, `walk`. The loops of the
-- StreamBuffer and of the readers have a number above that of the characters left, and each round
-- passes one. Those of the symmetry finders have the number of nodes, and each round marks one.
-- `gzread` and `isspace` are parameters; IsFile states what zlib documents of the first.
--
-- A run of a controller (SymmetryController/Run) is a sequence of calls of a solver, with the
-- literals that are assigned, the last one first; a controller is well formed for such a run if
-- its assignment has the values of these literals, and each status stands where they brought it.
--
-- Not modelled: statistics, timing and printing, which are output only; the typedefs of
-- include/cosy/IntegralTypes.h and IntType.h; of include/cosy/Bitset.h the classes BitQueue64 and
-- SparseBitset, the iterator, and the counts and searches over ranges, which the rest of the program
-- does not use; and the third-party code. Of that bliss and saucy are parameters
-- (SymmetryFinder.Tools), as is the LiteralAdapter that a solver supplies; glucose and minisat only
-- call the controller.
--
-- `LexLess` compares two assignments along the lookup order of one permutation, at the first
-- literal where they differ, by the truth value that the mode of the order puts first.
pub mod Prelude
pub mod Bits
pub mod Literal
pub mod StreamBuffer
pub mod CnfReader
pub mod SymmetryFinder
pub mod SaucyReader
pub mod Bitset
pub mod Assignment
pub mod DisjointSets
pub mod Orbits
pub mod Permutation
pub mod BreakidOrder
pub mod Order
pub mod Injector
pub mod Group
pub mod ClauseInjector
pub mod CosyStatus
pub mod OrderFactory
pub mod CosyManager
pub mod SymmetryController
pub mod CnfModel
pub mod CnfGraph
pub mod Examples
