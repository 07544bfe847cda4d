-- ===== src/Inventory/Service.antt =====
-- `InventoryService`, application/services/inventory_service.py: each method is an action of the
-- session. `_commit_if_needed` always commits, since `InventoryRepo` has a session. `next_id` is the
-- database's choice of an id for a new row, from the ids in use.
pub mod Record
pub mod Adjust
pub mod Reserve
pub mod Move
pub mod Confirm
pub mod Report
