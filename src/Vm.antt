-- ===== src/Vm.antt =====
-- crates/js-vm: the virtual machine's regular expressions.
pub mod Regex
mod Tests
