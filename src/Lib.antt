-- ===== src/Lib.antt =====
-- Graph accelerator: breadth-first search in software (bfs/) and the simulator of a hardware
-- accelerator that runs the same search against a memory model (src/).
--
-- Bfs models bfs/graph.h and bfs/graph.cpp. Bfs/Graph is `Graph::Graph` on the lines that
-- `loadFile` has read, with Bfs/Graph/Totals about the number of edges, Bfs/CsrBuild is
-- `CSR::CSR`, and Bfs/TopDown, Bfs/BottomUp, Bfs/Hybrid, Bfs/Basic and Bfs/Cache are `tdBfs`,
-- `buBfs`, `hybridBfs`, `basicBfs` and `cacheHybridBfs`. A search is a `do`/`while` loop over a
-- record of the variables that live across its rounds; a round is composed of the scan for the
-- frontier and of the loops over the frontier and its neighbours, with the counters of the memory
-- traffic (Bfs/Stats). Bfs/Params holds the parameters of `setBfsParam` and the degree counts.
-- Bfs/Shortest says what a search has to compute, the length of a shortest walk to each vertex,
-- Bfs/Advance and Bfs/Levels give the effect of a round on the depths independently of its
-- direction, and Bfs/Loop carries the invariant through the loop. Bfs/Agree compares the
-- searches. Bfs/Checked is a test of well-formed arrays and Bfs/Examples has runs.
--
-- Burst models the burst operations of src/common.h and src/common.cpp: `BurstOp` and how it is
-- split into requests, and the counters of class `GL`. Burst/Cover is about the addresses of the
-- requests, Burst/Width and Burst/Early about the alignment, Burst/Requests is `convertToReq`,
-- and Burst/Transfer moves the bytes: `ramToReq` and `reqToRam` (Burst/Transfer/Copy),
-- `burstReqToBuffer` and `bufferToBurstReq` (Burst/Transfer/Chunks). Burst/Examples has runs.
--
-- Memory models parts of src/MemWrapper.cpp and the reader of src/graph.cpp: Memory/Graph is
-- `Graph::Graph` of the simulator and the arrays that `ramInit` makes of it, Memory/Graph/Sizes
-- is about their sizes, Memory/Layout is where `ramInit` puts the arrays, Memory/Contents is what
-- `ramInit` writes there and how bursts read it (Memory/Contents/Depths has the depths),
-- Memory/Reset is `cleanRam` and `setNewStartVertex`, and Memory/Queues holds the queues between
-- the elements and the memory, with a turn of `getBurstReq` (`accept`), of `sendBurstResp`
-- (`respond`) and the completion of a request in `run_acc` (`complete`). Memory/Queues/Order is
-- about their interleavings, Memory/Queues/Once about the counts of requests. Memory/Examples has
-- runs. The memory model itself, Ramulator, decides when and in which order requests complete:
-- `complete` takes any request at any time.
--
-- Pe models the inspection of the processing element, src/pe.cpp, which reads the depths in four
-- partitions, and its controller: Pe/Inspect is `inspectDepthReqThread`, and Pe/Inspect/Cover is
-- about its reads. Pe/Inspect/Response adds `inspectDepthRespThread` and the port between the
-- two, Pe/Inspect/Arrive and Pe/Inspect/Lanes are about the depths that arrive while other
-- threads write (Pe/Depths). The sizes of the buffer that a turn meets are given turn by turn.
-- Pe/Analysis is `inspectDepthAnalysis`, which turns the depths into the frontier,
-- Pe/Analysis/Found and Pe/Analysis/Turns are about its interleavings with its neighbours,
-- Pe/Controller is `bfsController` and Pe/Create `createReadBurstReq`. Pe/Examples has runs.
--
-- Pe/Port and Pe/Expand model the expansion threads of src/pe.cpp, from `frontierAnalysis` to
-- `processExpandDepthWriteResp`, each as turns that part at the waits inside the creation of a
-- burst, and the ports of the element, with a turn of `sendMemReq` and of `getMemResp`. The
-- memory answers the bursts of a port in their order, which the rules at the head of the source
-- ask for and Memory/Queues/Order shows of the wrapper. Pe/Expand/Run composes the turns in any
-- order with the memory and with the vertices that the depth analysis pushes, Pe/Expand/Pending
-- says which targets each stage holds, Pe/Expand/Asked the depths that a run begins to read,
-- Pe/Expand/Reading, Pe/Expand/Writing and Pe/Expand/Level are the invariant, stage by stage, and
-- Pe/Expand/Correct what follows of it, with Pe/Expand/Later for the depths within a level.
-- Pe/Expand/Work is a measure of what is left to do: Pe/Expand/Work/Progress finds a step that
-- lowers it, and Pe/Expand/Work/Done brings a level to its end. Pe/Expand/Ends is about
-- `isEndOfBfsIteration`, Pe/Expand/Stalls about the room in `ciaoBuffer`, and Pe/Expand/Examples
-- has runs.
--
-- Common holds the shared helpers: tests, lists indexed by native numbers, loops and signed
-- integers.
--
-- Bounds and fuel: vertex indices, degrees, addresses and the counters of the traffic are natural
-- numbers, since they are non-negative `int`s and `long`s that are taken not to overflow; the
-- depths of bfs/ are `int`s. In Pe/Expand the depths are the values of signed bytes, the level is
-- from 0 to 127, and a next level is converted to a byte (`to_char`). The loop of a search has
-- one round of fuel for each vertex and two more, which is enough because a round that does not
-- mark a vertex is one of the last two. The address loop of a burst has one round for each byte
-- and one more. Comparisons of `float`s are Boolean parameters of the model, and so hold for any
-- of their outcomes. The random weights of `CSR::CSR`, the printing, and the reading of files are
-- left out.
--
-- Not modelled: the memory simulator Ramulator (src/DRAM.h, src/Controller.h and the files of the
-- standards), which is a copy of another project; the configuration of the memory wrapper, and
-- the programs' main functions.
pub mod Common
pub mod Bfs
pub mod Burst
pub mod Memory
pub mod Pe
