-- ===== src/Client/Delivery.antt =====
-- A prompt from `submit` of pygrid/client.py to `process` of pygrid/node.py, and the answer back to
-- `result_with_receipt`.
pub mod Prompt
pub mod Returned
pub mod Stored
