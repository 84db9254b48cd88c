-- ===== src/DeviceData.antt =====
-- The simulated device and the service for its data: app/dal/device/fake_client.py and
-- app/bl/services/device_data.py.
pub mod Simulation
pub mod Simulated
pub mod Inventory
pub mod Client
pub mod Service
pub mod Stored
pub mod Attempts
pub mod Access
pub mod Tests
