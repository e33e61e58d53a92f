-- ===== src/Lib.antt =====
-- nuklaivm: a verification library for the virtual machine's state and token economy.
--
-- The program keeps its state in a key-value store of the hypersdk. storage/storage.go lays out
-- balances, assets, loans and stakes in it; the actions (actions/*.go) run transactions over these
-- calls; the emission balancer (emission/emission.go) keeps supply, stakes, rewards and fees in
-- memory, driven by the staking actions and by the controller (controller/controller.go), which
-- settles each accepted block; controller/state_manager.go charges fees on balances.
--
-- Files and what they model:
--   Prelude, Prelude/*: lists, tests, maps as association lists (Dict), wrap-around arithmetic on
--     uint64 (Word), and calls with Go's errors and panics on a state (Monad).
--   Bytes, Bytes/Slices: big-endian numbers, slices and copy, with Go's panics out of range.
--   Sdk: what comes from avalanchego and the hypersdk, as parameters: array widths, hmath.Add64 and
--     hmath.Sub, state.Mutable. Sdk.IsLawful is the documented behaviour that theorems rest on;
--     Tests/Store has an instance of it.
--   Codec: codec.Packer of the hypersdk, a parameter too: what is written and read, in order.
--   Storage/Keys, Balance, Asset, Loan, ValidatorStake, UserStake, Transactions:
--     storage/storage.go, one function for each of its functions, under the same name in snake
--     case (innerGetBalance is inner_get_balance, getBalance is get_balance_entry, setBalance is
--     set_balance_at). Storage/Ledger sums the balances of an asset, Storage/Backing says that the
--     supply is that sum.
--   Storage/Books: an asset as three numbers: its recorded supply (Books/Supplies), what its
--     holders own together, and what is lent to other chains. Books/Rules and Books/Writes follow
--     the last two through a call, and Books/Steps is the abstract view: the steps that these
--     numbers take.
--   Actions/Transfer, MintAsset, BurnAsset, CreateAsset: the files of actions of these names, with
--     Execute as execute, StateKeys as state_keys; Actions/Receipt has what Execute returns.
--   Actions/ExportAsset, ImportAsset, WarpTransfer: actions/export_asset.go, import_asset.go and
--     warp_transfer.go. What the network says of a message (its source chain, whether it was
--     verified) is an argument. Actions/Accounts runs these and the actions above one after
--     another.
--   Actions/Staking: the six staking actions, on the pair of the key-value state and the emission
--     balancer, and emission/params.go. The height of the last accepted block and the current
--     validators are arguments. Staking/Escrow follows a stake out of the balances and back.
--   Auth/Bls: auth/bls.go, over a parameter for keys, signatures and addresses.
--   Emission/State, Staking, Claims, Events, Rewards, Queries: emission/emission.go. Pointers to
--     validators are indices into a heap, shared by the map and the events. A uint64 is a natural
--     number, with the wrap-around of each sum and difference written out. float64 is a parameter
--     (Floats). The order of a map's list stands for the order in which Go visits it.
--     Emission/Shares adds up what a distribution hands out.
--   Controller/Accepted: the settlement of fees and minted tokens in Accepted of
--     controller/controller.go. Controller/StateManager: controller/state_manager.go, with the keys
--     of all entries of the state in StateManager/Keys.
--   Genesis: Load of genesis/genesis.go. Parsing addresses is a parameter.
--   Tests/*: concrete runs, and each theorem at an input that meets its hypotheses.
--
-- All loops are structural recursion on lists, or on the number of epochs between two blocks
-- (Claims.sum_epochs, which is given exactly that number); there is no fuel.
--
-- Not modelled: Marshal and Unmarshal of most actions (modelled are those of exports, imports, the
-- warp transfer, the stake info and the results of staking actions), genesis parameters, the
-- faucet's challenge, signatures other than those of validators, RPC, the command line, metrics,
-- logging, and the lock of the emission balancer.
pub mod Prelude
pub mod Bytes
pub mod Sdk
pub mod Codec
pub mod Auth
pub mod Storage
pub mod Actions
mod Tests
pub mod Emission
pub mod Controller
pub mod Genesis
