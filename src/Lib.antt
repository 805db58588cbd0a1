-- ===== src/Lib.antt =====
-- Verification library of TT-Lang's simulator and its division of work, in Python.
--
-- The simulator (python/sim) runs the kernels of a program on a grid of nodes. A node's kernels hand
-- blocks of tiles to each other through dataflow buffers: a producer reserves a block, fills it and
-- pushes it, and a consumer waits for a block, reads it and pops it. A state machine per block refuses
-- uses out of order, a ring per buffer keeps the tensors, and a cooperative scheduler switches among
-- the kernels when one has to wait. The division of work (python/utils) decides which node gets how
-- many units before a program starts.
--
-- The files and the code:
--   BlockState     python/sim/blockstate.py: the enumerations and the table STATE_TRANSITIONS.
--   BlockMachine   python/sim/blockstate.py: class BlockStateMachine. `mark` is what the mark_* methods
--                  of python/sim/dfb.py do to it, one constructor of `Mark` for each method, and `run`
--                  makes several marks. Children: Protocol, InFlight (copies that are counted), Closing
--                  and CanClose (the end of a block's life).
--   DfbState       python/sim/dfbstate.py: class DFBState, with the updates that the methods of
--                  DataflowBuffer make. Channel is the specification: a bounded queue, and at most
--                  one item being written. Window has the lemmas on a window of slots that wraps
--                  around, and Fifo the refinement.
--   Block          python/sim/dfb.py: class Block, on a heap of tensors and blocks, since blocks share
--                  tensors with the ring and a temporary block refers to the blocks it was computed
--                  from. An operator on tensors is a parameter, and so is the conversion to a tensor's
--                  dtype that torch's copy_ makes, which the tensor has with it. A method that raises
--                  gives an error without a heap. Children: Marks (what marks leave alone), Store,
--                  Confirm and Tracked (the blocks that wait for a store).
--   Dataflow       python/sim/dfb.py: class DataflowBuffer. The methods reserve and wait are cut in two
--                  where they call block_if_needed: reserve_begin and reserve_end, wait_begin and
--                  wait_end. Children: Shape (the element shape), Tracks and Consumer (what a
--                  producer and a consumer see), Session (their calls
--                  interleaved, push and pop by hand included), Fifo (the
--                  order of the tensors), Sharing (a second producer) and Reset
--                  (reset, and the check at the end of a kernel).
--   NodeContext    python/sim/nodecontext.py: node, grid_size and flatten_node_index. Children:
--                  RoundTrip and AllNodes (sums over a grid's nodes).
--   Pipe           python/sim/pipe.py: class Pipe, and the tests of PipeNet for a node. Children:
--                  Range and Receivers (how many nodes receive).
--   PipeBuffer     python/sim/copyhandlers.py: the messages of a pipe. Children: Delivery (one
--                  reception) and Traffic (sends and receptions in any order).
--   PipeNets       python/ttl/_pipenets/__init__.py: class OperationPipeNets, and the part of
--                  python/sim/pipe.py that builds it. Children: Coords and Rect (coordinates and
--                  destinations within a grid), Active, Semaphores and Validation.
--   Copy           python/sim/copy.py, and the handlers of python/sim/copyhandlers.py: transactions on
--                  a heap of tensors and blocks and a table of pipe entries. What other kernels do
--                  while one waits for a transaction is the parameter `meanwhile`. Children: Outcome
--                  (what each handler's transfer does), Parts, Delivers (copy and wait) and Group.
--   Sharding       python/sim/sharding.py: the counters of local and remote elements. Children: Cores
--                  (shards along a dimension), Partition (two dimensions), Nd and Owner (shards that
--                  go round) and Config (create_sharded_memory_config of python/sim/ttnnsim.py).
--   Scheduler      python/sim/greenlet_scheduler.py: class GreenletScheduler. The code of a kernel,
--                  which runs in a greenlet, is the parameter `turn`, and `can` is the call of
--                  can_wait, can_reserve and their like. Children: Order, Deadlock, Bookkeeping,
--                  Initialization and Termination.
--   BlockAllocation  python/utils/block_allocation.py: num_nodes_to_grid_ranges and
--                  split_work_to_nodes. Children: Cells and Plane (counting the nodes of ranges),
--                  Ranges, Shares (the ways of dividing the units) and Work.
--   Matmul         python/utils/block_allocation.py: get_large_matmul_params. Children: Positive
--                  (products of factors), Params and Whole (the blocks divide the matrix).
--   Prelude, Result  what these share: Boolean tests and lists over native numbers, and results with
--                  errors. Each component's Tests holds runs at concrete values.
--
-- Numbers are natural: Python's integers are not bounded, and where the code subtracts, the model says
-- what it relies on. Only the scheduler's main loop is bounded, by a number of rounds; any number above
-- a measure that each turn lowers is enough. The texts of errors, names for reports and traces are left
-- out. Not modelled are the numeric operations, which belong to torch, and the compiler, which builds MLIR through bindings.
pub mod Prelude
pub mod Result
pub mod BlockState
pub mod BlockMachine
pub mod DfbState
pub mod BlockAllocation
pub mod Block
pub mod Scheduler
pub mod Dataflow
pub mod NodeContext
pub mod Pipe
pub mod PipeBuffer
pub mod PipeNets
pub mod Copy
pub mod Sharding
pub mod Matmul
